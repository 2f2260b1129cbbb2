-- ===== src/Std/Strings/Laws.antt =====
-- Searching for a character and trimming spaces.
use gopack.Prelude.{
  ℕ, ◌≤◌, ◌≡◌, refl, ◌≢◌, false, List, [], ◌∷◌, ◌++◌, none, some, arith, length, All,
}
use gopack.Std.Strings.{is_space, trim_left, trim_right, keep, trim_space, index, last_index}

abbrev pub Lacks : ℕ → List ℕ → Type 0
Lacks c s = All (λ d. d ≢ c) s

pub index-none : (c : ℕ) (s : List ℕ) → Lacks c s → index c s ≡ none
unfolding index
index-none c [] h = refl
index-none c (d ∷ s) (n, h) = ground (arith, index-none c s h)

pub index-append : (c : ℕ) (s t : List ℕ) → Lacks c s → index c (s ++ c ∷ t) ≡ some (length s)
unfolding index
index-append c [] t h = ground arith
index-append c (d ∷ s) t (n, h) = ground (arith, index-append c s t h)

pub last_index-none : (c : ℕ) (s : List ℕ) → Lacks c s → last_index c s ≡ none
unfolding last_index
last_index-none c [] h = refl
last_index-none c (d ∷ s) (n, h) = ground (arith, last_index-none c s h)

pub last_index-append :
    (c : ℕ) (s t : List ℕ) → Lacks c t → last_index c (s ++ c ∷ t) ≡ some (length s)
unfolding last_index
last_index-append c [] t h = ground (arith, last_index-none c t h)
last_index-append c (d ∷ s) t h = ground (arith, last_index-append c s t h)

abbrev pub NoSpace : List ℕ → Type 0
NoSpace s = All (λ c. is_space c ≡ false) s

trim_right_of_NoSpace : (s : List ℕ) → NoSpace s → trim_right s ≡ s
unfolding trim_right
trim_right_of_NoSpace [] h = refl
trim_right_of_NoSpace (c ∷ []) (n, h) = ground arith
trim_right_of_NoSpace (c ∷ d ∷ s) (n, h) = rw (trim_right_of_NoSpace (d ∷ s) h)

keep-append : (c : ℕ) (s t : List ℕ) (d : ℕ) → keep c (s ++ d ∷ t) ≡ c ∷ (s ++ d ∷ t)
keep-append c [] t d = refl
keep-append c (e ∷ s) t d = refl

trim_right-append :
    (s : List ℕ) (d : ℕ) (t : List ℕ) → NoSpace (d ∷ t) → trim_right (s ++ d ∷ t) ≡ s ++ d ∷ t
unfolding trim_right
trim_right-append [] d t h = trim_right_of_NoSpace (d ∷ t) h
trim_right-append (c ∷ s) d t h = rw (trim_right-append s d t h) (keep-append c s t d)

-- A text that begins and ends with no space stays as it is.
pub trim_space-append :
    (c : ℕ) (s : List ℕ) (d : ℕ) (t : List ℕ)
    → is_space c ≡ false
    → NoSpace (d ∷ t)
    → trim_space (c ∷ (s ++ d ∷ t)) ≡ c ∷ (s ++ d ∷ t)
unfolding trim_space trim_left
trim_space-append c s d t n h = rw n (trim_right-append (c ∷ s) d t h)

-- From `!` to `~` there is no space.
pub is_space_of_graphic : (c : ℕ) → b'!' ≤ c → c ≤ b'~' → is_space c ≡ false
unfolding is_space
is_space_of_graphic c h k = ground arith
