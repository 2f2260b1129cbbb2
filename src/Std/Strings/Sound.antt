-- ===== src/Std/Strings/Sound.antt =====
-- What a search for a character says of the text that was searched.
use gopack.Prelude.{
  ℕ, zero, suc, ◌≡◌, ap, false, List, [], ◌∷◌, ◌++◌, none, some, arith, take, drop, is_some,
  Option-cases, inl, inr,
}
use gopack.Std.Strings.{index, last_index}
use gopack.Std.Strings.Laws.{Lacks}

pub index-Lacks : (c : ℕ) (s : List ℕ) → is_some (index c s) ≡ false → Lacks c s
unfolding index
index-Lacks c [] h = tt
index-Lacks c (d ∷ s) h = elim (Option-cases (index c s)) [
  | inl gone ↦ (ground arith, index-Lacks c s (ground arith))
  | inr (i, found) ↦ absurd (ground arith)
]

-- The first one: the text around it, and none before it.
pub index-split :
    (c : ℕ) (s : List ℕ) (i : ℕ)
    → index c s ≡ some i
    → (s ≡ take i s ++ c ∷ drop (suc i) s) × Lacks c (take i s)
unfolding index
index-split c [] i h = ground arith
index-split c (d ∷ s) zero h = (ground arith, tt)
index-split c (d ∷ s) (suc i) h =
    let (e, l) = index-split c s i (ground arith) in (ap (λ t. d ∷ t) e, (ground arith, l))

pub last_index-Lacks : (c : ℕ) (s : List ℕ) → last_index c s ≡ none → Lacks c s
unfolding last_index
last_index-Lacks c [] h = tt
last_index-Lacks c (d ∷ s) h = elim (Option-cases (last_index c s)) [
  | inl gone ↦ (ground arith, last_index-Lacks c s gone)
  | inr (i, found) ↦ absurd (ground arith)
]

-- The last one: the text around it, and none behind it.
pub last_index-split :
    (c : ℕ) (s : List ℕ) (i : ℕ)
    → last_index c s ≡ some i
    → (s ≡ take i s ++ c ∷ drop (suc i) s) × Lacks c (drop (suc i) s)
unfolding last_index
last_index-split c [] i h = ground arith
last_index-split c (d ∷ s) zero h = elim (Option-cases (last_index c s)) [
  | inl gone ↦ (ground arith, last_index-Lacks c s gone)
  | inr (j, found) ↦ absurd (ground arith)
]
last_index-split c (d ∷ s) (suc i) h = elim (Option-cases (last_index c s)) [
  | inl gone ↦ absurd (ground arith)
  | inr (j, found) ↦ let (e, l) = last_index-split c s i (ground arith) in (ap (λ t. d ∷ t) e, l)
]

pub drop-split :
    (c : ℕ) (s : List ℕ) (i : ℕ)
    → s ≡ take i s ++ c ∷ drop (suc i) s
    → drop i s ≡ c ∷ drop (suc i) s
drop-split c s zero e = e
drop-split c [] (suc i) e = ground arith
drop-split c (d ∷ s) (suc i) e = drop-split c s i (ground arith)
