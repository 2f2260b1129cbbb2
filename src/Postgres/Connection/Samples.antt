-- ===== src/Postgres/Connection/Samples.antt =====
-- A reader of connection strings, for texts without quotes and escapes: keys up to `=`, and values up
-- to a space.
use gopack.Prelude.{
  ℕ, ◌≡◌, sym, ap, ◌∙◌, Bool, true, false, String, List, [], ◌∷◌, ◌++◌, append-nil, Option, some,
  append_assoc, arith, eqb, All-map, eqb-false, if◌then◌else◌,
}
use gopack.Std.Strings.{codes}
use gopack.Std.Strings.Laws.{Lacks}
use gopack.Postgres.Connection.{setting}
use gopack.Postgres.Connection.Settings.{
  Settings, ConnectionStrings, is_plain, IsPlain, is_key_char, IsKeyword,
}

-- The accumulators are the key and the value that are being read.
pub read_settings : Bool → List ℕ → List ℕ → List ℕ → Settings
read_settings in_value key value [] = (key, value) ∷ []
read_settings false key value (c ∷ s) =
    let go_on = read_settings false (key ++ c ∷ []) value s in
    let next = read_settings true key [] s in if eqb c b'=' then next else go_on
read_settings true key value (c ∷ s) =
    let go_on = read_settings true key (value ++ c ∷ []) s in
    let next = read_settings false [] [] s in if eqb c b' ' then (key, value) ∷ next else go_on

read_settings-key :
    (acc key s : List ℕ)
    → Lacks b'=' key
    → read_settings false acc [] (key ++ b'=' ∷ s) ≡ read_settings true (acc ++ key) [] s
unfolding read_settings
read_settings-key acc [] s h = ap (λ k. read_settings true k [] s) (sym (append-nil acc))
read_settings-key acc (c ∷ key) s h = rw (eqb-false c b'=' h.0) (
    read_settings-key (acc ++ c ∷ []) key s h.1
    ∙ ap (λ k. read_settings true k [] s) (append_assoc acc (c ∷ []) key))

read_settings-value :
    (key acc value s : List ℕ)
    → Lacks b' ' value
    → read_settings true key acc (value ++ b' ' ∷ s)
      ≡ (key, acc ++ value) ∷ read_settings false [] [] s
unfolding read_settings
read_settings-value key acc [] s h =
    ap (λ v. (key, v) ∷ read_settings false [] [] s) (sym (append-nil acc))
read_settings-value key acc (c ∷ value) s h = rw (eqb-false c b' ' h.0) (
    read_settings-value key (acc ++ c ∷ []) value s h.1
    ∙ ap (λ v. (key, v) ∷ read_settings false [] [] s) (append_assoc acc (c ∷ []) value))

read_settings-last :
    (key acc value : List ℕ)
    → Lacks b' ' value
    → read_settings true key acc value ≡ (key, acc ++ value) ∷ []
unfolding read_settings
read_settings-last key acc [] h = ap (λ v. (key, v) ∷ []) (sym (append-nil acc))
read_settings-last key acc (c ∷ value) h = rw (eqb-false c b' ' h.0) (
    read_settings-last key (acc ++ c ∷ []) value h.1
    ∙ ap (λ v. (key, v) ∷ []) (append_assoc acc (c ∷ []) value))

abbrev pub settings : List ℕ → Settings
settings s = read_settings false [] [] s

pub settings-setting :
    (key : String) (value s : List ℕ)
    → Lacks b'=' (codes key)
    → Lacks b' ' value
    → settings (setting key value ++ b' ' ∷ s) ≡ (codes key, value) ∷ settings s
settings-setting key value s k v =
    ap settings (append_assoc (codes key) (b'=' ∷ value) (b' ' ∷ s))
    ∙ read_settings-key [] (codes key) (value ++ b' ' ∷ s) k
    ∙ read_settings-value (codes key) [] value s v

pub settings-setting_last :
    (key : String) (value : List ℕ)
    → Lacks b'=' (codes key)
    → Lacks b' ' value
    → settings (setting key value) ≡ (codes key, value) ∷ []
settings-setting_last key value k v =
    read_settings-key [] (codes key) value k ∙ read_settings-last (codes key) [] value v

pub key-Lacks : (key : String) → IsKeyword key → Lacks b'=' (codes key)
key-Lacks key (filled, h) =
    All-map (λ c. is_key_char c ≡ true) _ (λ c h. λ e. ground arith) (codes key) h

pub value-Lacks : (value : List ℕ) → IsPlain value → Lacks b' ' value
value-Lacks value h = All-map (λ c. is_plain c ≡ true) _ (λ c h. λ e. ground arith) value h

pub some_inj : {A : Type 0} {x y : A} → ◌≡◌ {A = Option A} (some x) (some y) → x ≡ y
some_inj e = ground arith

-- what it reads of plain settings is what the documentation says
abbrev pub plain_reader : ConnectionStrings
plain_reader = record {
  read = λ s. some (settings s);
  read-last = λ key value k (filled, v).
      ap some (settings-setting_last key value (key-Lacks key k) (value-Lacks value v));
  read-next = λ key value rest kvs k (filled, v) e. ap some (
      settings-setting key value rest (key-Lacks key k) (value-Lacks value v)
      ∙ ap (λ l. (codes key, value) ∷ l) (some_inj e));
}
