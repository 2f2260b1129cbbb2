-- ===== src/Postgres/Connection/Settings.antt =====
-- What a connection string says (postgres/postgres.go).
-- The driver that reads it is a parameter, `ConnectionStrings`, with what the documentation of
-- connection strings says: settings `keyword=value` behind each other, with a space between two of
-- them. A value that is empty, or has spaces, quotes or backslashes, is written otherwise, and
-- nothing is said of how it is read here.
use gopack.Prelude.{
  ℕ, suc, ◌<◌, length, ◌≡◌, refl, sym, ap, ◌∙◌, Bool, true, false, String, List, [], ◌∷◌, ◌++◌, map,
  append-nil, All-append, not, ◌&&◌, ◌||◌, leb, append_assoc, arith, eqb, All, All-map, ℤ, pos,
  negsuc, if◌then◌else◌, Option, some,
}
use gopack.Std.Strings.{codes}
use gopack.Std.Strconv.{int_codes, decimal}
use gopack.Std.Strconv.Laws.{IsDigit, decimal-All, length-decimal_pos}
use gopack.Postgres.Connection.{Config, setting, create_connection_string, new, is_empty}

abbrev pub Settings : Type 0
Settings = List (List ℕ × List ℕ)

-- a printing character of ASCII that is not a space, a quote or a backslash
abbrev pub is_plain : ℕ → Bool
is_plain c = leb 33 c && leb c 126 && not (eqb c 39) && not (eqb c 92)

abbrev pub IsPlain : List ℕ → Type 0
IsPlain v = All (λ c. is_plain c ≡ true) v

abbrev pub IsValue : List ℕ → Type 0
IsValue v = (is_empty v ≡ false) × IsPlain v

-- a small letter or an underscore
abbrev pub is_key_char : ℕ → Bool
is_key_char c = (leb 97 c && leb c 122) || eqb c 95

abbrev pub IsKeyword : String → Type 0
IsKeyword k = (is_empty (codes k) ≡ false) × All (λ c. is_key_char c ≡ true) (codes k)

-- `read` gives the settings of a connection string in their order, or none for an error.
pub record ConnectionStrings : Type 0 where
  pub read : List ℕ → Option Settings
  pub read-last :
      (key : String) (value : List ℕ)
      → IsKeyword key
      → IsValue value
      → read (setting key value) ≡ some ((codes key, value) ∷ [])
  pub read-next :
      (key : String) (value rest : List ℕ) (kvs : Settings)
      → IsKeyword key
      → IsValue value
      → read rest ≡ some kvs
      → read (setting key value ++ b' ' ∷ rest) ≡ some ((codes key, value) ∷ kvs)

filled : (v : List ℕ) → 0 < length v → is_empty v ≡ false
filled [] h = absurd (omega arith)
filled (c ∷ v) h = refl

digits-IsPlain : (v : List ℕ) → All IsDigit v → IsPlain v
digits-IsPlain v h = All-map IsDigit (λ c. is_plain c ≡ true) (λ c (low, high). ground arith) v h

int_codes-IsValue : (n : ℤ) → IsValue (int_codes n)
unfolding int_codes
int_codes-IsValue (pos n) =
    (filled (decimal n) (length-decimal_pos n), digits-IsPlain (decimal n) (decimal-All n))
int_codes-IsValue (negsuc n) =
    (refl, (refl, digits-IsPlain (decimal (suc n)) (decimal-All (suc n))))

-- settings with a space between two of them
abbrev joined : List (String × List ℕ) → List ℕ
joined [] = []
joined ((k, v) ∷ []) = setting k v
joined ((k, v) ∷ kv ∷ rest) = setting k v ++ b' ' ∷ joined (kv ∷ rest)

joined-append :
    (kv : String × List ℕ) (kvs : List (String × List ℕ)) (k : String) (v : List ℕ)
    → joined (kv ∷ kvs) ++ b' ' ∷ setting k v ≡ joined ((kv ∷ kvs) ++ (k, v) ∷ [])
joined-append (l, w) [] k v = refl
joined-append (l, w) (kv ∷ kvs) k v =
    append_assoc (setting l w) (b' ' ∷ joined (kv ∷ kvs)) (b' ' ∷ setting k v)
    ∙ ap (λ s. setting l w ++ b' ' ∷ s) (joined-append kv kvs k v)

abbrev IsSetting : String × List ℕ → Type 0
IsSetting (k, v) = IsKeyword k × IsValue v

read-joined :
    (driver : ConnectionStrings) (kv : String × List ℕ) (kvs : List (String × List ℕ))
    → All IsSetting (kv ∷ kvs)
    → driver.read (joined (kv ∷ kvs)) ≡ some (map (λ (k, v). (codes k, v)) (kv ∷ kvs))
read-joined driver (k, v) [] ((pk, pv), h) = driver.read-last k v pk pv
read-joined driver (k, v) (kv ∷ kvs) ((pk, pv), h) =
    driver.read-next k v (joined (kv ∷ kvs)) _ pk pv (read-joined driver kv kvs h)

-- a setting that is left out when its value is empty
abbrev pub optional : String → List ℕ → List (String × List ℕ)
optional k v = if is_empty v then [] else (k, v) ∷ []

abbrev required_rest : Config → List (String × List ℕ)
required_rest c =
    ("port", int_codes c.db_port)
    ∷ ("user", c.db_user)
    ∷ ("dbname", c.db_name)
    ∷ ("sslmode", codes "disable")
    ∷ []

abbrev pub required : Config → List (String × List ℕ)
required c = ("host", c.db_host) ∷ required_rest c

-- The texts of a configuration are plain, and the host, the user and the database are not empty.
abbrev pub HasPlainTexts : Config → Type 0
HasPlainTexts c =
    IsValue c.db_host
    × IsValue c.db_user
    × IsValue c.db_name
    × IsPlain c.db_password
    × IsPlain c.db_schema

joined-optional :
    (kv : String × List ℕ) (kvs : List (String × List ℕ)) (k : String) (v : List ℕ)
    → (if not (is_empty v) then joined (kv ∷ kvs) ++ b' ' ∷ setting k v else joined (kv ∷ kvs))
      ≡ joined ((kv ∷ kvs) ++ optional k v)
joined-optional kv kvs k [] = ap joined (sym (append-nil (kv ∷ kvs)))
joined-optional kv kvs k (c ∷ v) = joined-append kv kvs k (c ∷ v)

optional-IsSetting :
    (k : String) (v : List ℕ) → IsKeyword k → IsPlain v → All IsSetting (optional k v)
optional-IsSetting k [] pk pv = tt
optional-IsSetting k (c ∷ v) pk pv = ((pk, (refl, pv)), tt)

-- Of the connection string of a configuration whose texts are plain, with a host, a user and a
-- database that are not empty, the driver reads the host, the port, the user and the database, that
-- there is no TLS, and then the password and the schema, those that are not empty.
pub read-new :
    (driver : ConnectionStrings) (D : Type 0) (c : Config)
    → HasPlainTexts c
    → driver.read (new {D = D} c).conn_str
      ≡ some (
          map
            (λ (k, v). (codes k, v))
            ((required c ++ optional "password" c.db_password)
              ++ optional "search_path" c.db_schema))
unfolding new create_connection_string
read-new driver D c (host, user, name, password, schema) =
    ap driver.read (
      ap
        (λ s.
          if not (is_empty c.db_schema) then s ++ b' ' ∷ setting "search_path" c.db_schema else s)
        (joined-optional ("host", c.db_host) (required_rest c) "password" c.db_password)
      ∙ joined-optional ("host", c.db_host) (required_rest c ++ optional "password" c.db_password)
          "search_path" c.db_schema)
    ∙ read-joined driver ("host", c.db_host)
        ((required_rest c ++ optional "password" c.db_password)
          ++ optional "search_path" c.db_schema)
        (All-append IsSetting (required c ++ optional "password" c.db_password)
          (optional "search_path" c.db_schema)
          (All-append IsSetting (required c) (optional "password" c.db_password)
            (
              (ground arith, host),
              (
                (ground arith, int_codes-IsValue c.db_port),
                ((ground arith, user), ((ground arith, name), ((ground arith, ground arith), tt))),
              ),
            )
            (optional-IsSetting "password" c.db_password (ground arith) password))
          (optional-IsSetting "search_path" c.db_schema (ground arith) schema))
