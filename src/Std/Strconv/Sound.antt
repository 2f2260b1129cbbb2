-- ===== src/Std/Strconv/Sound.antt =====
-- What a text that strconv.Atoi reads as a number that is not negative looks like.
use gopack.Prelude.{
  ℕ, zero, suc, ◌+◌, ◌-◌, ◌*◌, ◌≡◌, ◌≢◌, ◌≤◌, ◌⊎◌, inl, inr, refl, Bool, true, false, List, [], ◌∷◌,
  ◌++◌, arith, All, pos, ℤ, Bool-cases, eqb,
}
use gopack.Std.Strconv.{number, max_int64, signed, scan, magnitude, atoi}
use gopack.Std.Strconv.Laws.{IsDigit}

-- the number that digits write, behind those of `n`
pub reading : ℕ → List ℕ → ℕ
reading n [] = n
reading n (c ∷ s) = reading (n * 10 + (c - b'0')) s

scan-number :
    (negative : Bool) (n : ℕ) (s : List ℕ) (z : ℤ)
    → scan negative n s ≡ number z
    → All IsDigit s × (signed negative (reading n s) ≡ number z)
unfolding scan reading
scan-number negative n [] z e = (tt, e)
scan-number negative n (c ∷ s) z e =
    let (digits, read) = scan-number negative (n * 10 + (c - b'0')) s z (ground arith) in
    ((ground arith, digits), read)

-- nothing, or a sign
abbrev pub IsSign : List ℕ → Type 0
IsSign s = (s ≡ []) ⊎ (s ≡ b'+' ∷ []) ⊎ (s ≡ b'-' ∷ [])

-- Digits, at least one, that write a number of an int64.
pub record Writes (digits : List ℕ) (n : ℕ) : Type 0 where
  pub all_digits : All IsDigit digits
  pub filled : digits ≢ []
  pub read : reading 0 digits ≡ n
  pub fits : n ≤ max_int64

signed-pos :
    (negative : Bool) (m n : ℕ) → signed negative m ≡ number (pos n) → (m ≡ n) × (n ≤ max_int64)
unfolding signed
signed-pos true zero n e = ground arith
signed-pos true (suc m) n e = ground arith
signed-pos false m n e = ground arith

magnitude-number :
    (negative : Bool) (s : List ℕ) (n : ℕ) → magnitude negative s ≡ number (pos n) → Writes s n
unfolding magnitude
magnitude-number negative [] n e = absurd (ground arith)
magnitude-number negative (c ∷ s) n e =
    let (digits, read) = scan-number negative 0 (c ∷ s) (pos n) e in
    let (is, bound) = signed-pos negative (reading 0 (c ∷ s)) n read in
    record { all_digits = digits; filled = λ h. ground arith; read = is; fits = bound }

-- A sign, or none, and digits that write the number.
pub atoi-number :
    (s : List ℕ) (n : ℕ)
    → atoi s ≡ number (pos n)
    → (sign : List ℕ) × (digits : List ℕ) × (s ≡ sign ++ digits) × IsSign sign × Writes digits n
unfolding atoi
atoi-number [] n e = absurd (ground arith)
atoi-number (c ∷ s) n e = elim (Bool-cases (eqb c b'-')) [
  | inl minus ↦
      let laws = magnitude-number true s n (ground arith) in
      (b'-' ∷ [], s, ground arith, inr (inr refl), laws)
  | inr unminus ↦ elim (Bool-cases (eqb c b'+')) [
    | inl plus ↦
        let laws = magnitude-number false s n (ground arith) in
        (b'+' ∷ [], s, ground arith, inr (inl refl), laws)
    | inr bare ↦
        let laws = magnitude-number false (c ∷ s) n (ground arith) in
        ([], c ∷ s, refl, inl refl, laws)
  ]
]
