-- ===== src/Std/Strconv/Laws.antt =====
-- Decimal notation, and that `atoi` reads it back.
use gopack.Prelude.{
  ℕ, zero, suc, ◌+◌, ◌-◌, ◌*◌, ◌/◌, ◌%◌, ◌≤◌, ◌<◌, ◌≡◌, ◌∙◌, false, List, [], ◌∷◌, arith, length,
  All, ltb, Bool-cases, inl, inr, pos, ap,
}
use native.Mathlib.Decide.{dec_le}
use gopack.Std.Strconv.{
  scan, signed, atoi, decimal_from, decimal, number, max_int64, malformed, range,
}

abbrev pub IsDigit : ℕ → Type 0
IsDigit c = (b'0' ≤ c) × (c ≤ b'9')

decimal_from-All :
    (fuel n : ℕ) (s : List ℕ) → n < fuel → All IsDigit s → All IsDigit (decimal_from fuel n s)
unfolding decimal_from
decimal_from-All zero n s h k = k
decimal_from-All (suc fuel) n s h k = elim (Bool-cases (ltb n 10)) [
  | inl small ↦ ground arith
  | inr large ↦ rw large (
      decimal_from-All fuel (n / 10) ((b'0' + n % 10) ∷ s) (ground arith)
        ((omega arith, omega arith), k))
]

scan_digit :
    (n d : ℕ) (s : List ℕ)
    → d < 10
    → n * 10 + d ≤ max_int64
    → scan false n ((b'0' + d) ∷ s) ≡ scan false (n * 10 + d) s
unfolding scan
scan_digit n d s h k = let e : b'0' + d - b'0' ≡ d = omega arith in rw e (ground arith)

scan-decimal_from :
    (fuel n : ℕ) (s : List ℕ)
    → n < fuel
    → n ≤ max_int64
    → scan false 0 (decimal_from fuel n s) ≡ scan false n s
unfolding decimal_from
scan-decimal_from zero n s h k = absurd (omega arith)
scan-decimal_from (suc fuel) n s h k = elim (Bool-cases (ltb n 10)) [
  | inl small ↦
      rw small
        (scan_digit 0 n s (ground arith) (omega arith) ∙ ap (λ t. scan false t s) (omega arith))
  | inr large ↦ rw large (
      scan-decimal_from fuel (n / 10) ((b'0' + n % 10) ∷ s) (ground arith) (omega arith)
      ∙ scan_digit (n / 10) (n % 10) s (omega arith) (omega arith)
      ∙ ap (λ t. scan false t s) (omega arith))
]

-- Past the largest int64 every further digit keeps the range error.
scan_over : (n : ℕ) (s : List ℕ) → max_int64 < n → All IsDigit s → scan false n s ≡ malformed range
unfolding scan signed
scan_over n [] h k = ground arith
scan_over n (c ∷ s) h k = ground (arith, scan_over (n * 10 + (c - b'0')) s (omega arith) k.1)

scan_last :
    (n : ℕ) (s : List ℕ)
    → max_int64 < n
    → All IsDigit s
    → scan false (n / 10) ((b'0' + n % 10) ∷ s) ≡ malformed range
unfolding scan
scan_last n s k a =
    let e : n / 10 * 10 + (b'0' + n % 10 - b'0') ≡ n = omega arith in
    rw e (ground (arith, scan_over n s k a))

scan_end : (n : ℕ) → n ≤ max_int64 → scan false n [] ≡ number (pos n)
unfolding scan signed
scan_end n h = ground arith

scan-decimal_from_over :
    (fuel n : ℕ) (s : List ℕ)
    → n < fuel
    → max_int64 < n
    → All IsDigit s
    → scan false 0 (decimal_from fuel n s) ≡ malformed range
unfolding decimal_from
scan-decimal_from_over zero n s h k a = absurd (omega arith)
scan-decimal_from_over (suc fuel) n s h k a = elim (Bool-cases (ltb n 10)) [
  | inl small ↦ absurd (ground arith)
  | inr large ↦ elim (dec_le (n / 10) max_int64) [
    | yes last ↦ rw large (
        scan-decimal_from fuel (n / 10) ((b'0' + n % 10) ∷ s) (ground arith) last
        ∙ scan_last n s k a)
    | no before ↦ rw large (
        scan-decimal_from_over fuel (n / 10) ((b'0' + n % 10) ∷ s) (ground arith) (omega arith)
          ((omega arith, omega arith), a))
  ]
]

length-lt-decimal_from :
    (fuel n : ℕ) (s : List ℕ) → n < fuel → length s < length (decimal_from fuel n s)
unfolding decimal_from
length-lt-decimal_from zero n s h = absurd (omega arith)
length-lt-decimal_from (suc fuel) n s h = elim (Bool-cases (ltb n 10)) [
  | inl small ↦ ground arith
  | inr large ↦
      rw large
        (omega (arith, length-lt-decimal_from fuel (n / 10) ((b'0' + n % 10) ∷ s) (ground arith)))
]

pub decimal-All : (n : ℕ) → All IsDigit (decimal n)
unfolding decimal
decimal-All n = decimal_from-All (suc n) n [] (omega arith) tt

pub length-decimal_pos : (n : ℕ) → 0 < length (decimal n)
unfolding decimal
length-decimal_pos n = length-lt-decimal_from (suc n) n [] (omega arith)

atoi_of_All : (s : List ℕ) → All IsDigit s → 0 < length s → atoi s ≡ scan false 0 s
unfolding atoi
atoi_of_All [] a h = absurd (omega arith)
atoi_of_All (c ∷ s) a h = ground arith

-- The decimal notation of an int64 is read back as that number.
pub atoi-decimal : (n : ℕ) → n ≤ max_int64 → atoi (decimal n) ≡ number (pos n)
unfolding decimal
atoi-decimal n h =
    atoi_of_All (decimal n) (decimal-All n) (length-decimal_pos n)
    ∙ scan-decimal_from (suc n) n [] (omega arith) h
    ∙ scan_end n h

-- The decimal notation of a larger number is out of range.
pub atoi-decimal_over : (n : ℕ) → max_int64 < n → atoi (decimal n) ≡ malformed range
unfolding decimal
atoi-decimal_over n h =
    atoi_of_All (decimal n) (decimal-All n) (length-decimal_pos n)
    ∙ scan-decimal_from_over (suc n) n [] (omega arith) h tt
