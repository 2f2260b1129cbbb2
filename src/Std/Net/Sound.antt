-- ===== src/Std/Net/Sound.antt =====
-- The grammar of the addresses that net.SplitHostPort splits, and that it splits no others.
use gopack.Prelude.{
  ℕ, zero, suc, ◌+◌, ◌≡◌, ◌∙◌, ap, true, List, [], ◌∷◌, ◌++◌, some, arith, All, Option-cases, inl,
  inr, take, drop, get_elem?, subst, Bool-cases,
}
use native.Mathlib.Numerals.{add-one}
use gopack.Std.Strings.{index, last_index}
use gopack.Std.Strings.Laws.{Lacks}
use gopack.Std.Strings.Sound.{index-Lacks, index-split, last_index-split, drop-split}
use gopack.Std.Net.{parts, split_host_port, split_plain, split_bracketed, check_brackets, is_char}
use gopack.Std.Net.Laws.{IsPlain, split_host_port_of_plain, split_host_port_of_bracketed}

-- `host:port`, or `[host]:port` where the host may hold colons.
pub data Address : List ℕ → List ℕ → List ℕ → Type 0 where
  plain_address :
      {hp host port : List ℕ}
      → hp ≡ host ++ b':' ∷ port
      → IsPlain host
      → IsPlain port
      → Address hp host port
  bracketed_address :
      {hp host port : List ℕ}
      → hp ≡ b'[' ∷ (host ++ b']' ∷ b':' ∷ port)
      → Lacks b'[' host
      → Lacks b']' host
      → IsPlain port
      → Address hp host port

pub split_host_port_complete :
    (hp host port : List ℕ) → Address hp host port → split_host_port hp ≡ parts host port
split_host_port_complete hp host port (plain_address e h p) =
    rw e (split_host_port_of_plain host port h p)
split_host_port_complete hp host port (bracketed_address e opens closes p) =
    rw e (split_host_port_of_bracketed host port opens closes p)

All-take_drop : (c n : ℕ) (s : List ℕ) → Lacks c s → Lacks c (take n s) × Lacks c (drop n s)
All-take_drop c zero s h = (tt, h)
All-take_drop c (suc n) [] h = (tt, tt)
All-take_drop c (suc n) (d ∷ s) (p, h) = let (a, b) = All-take_drop c n s h in ((p, a), b)

All-split {ℓ κ} :
    {A : Type ℓ} (P : A → Type κ) (xs ys : List A) → All P (xs ++ ys) → All P xs × All P ys
All-split P [] ys h = (tt, h)
All-split P (x ∷ xs) ys (p, h) = let (a, b) = All-split P xs ys h in ((p, a), b)

check_brackets-parts :
    (h p from_open from_close host port : List ℕ)
    → check_brackets h p from_open from_close ≡ parts host port
    → (h ≡ host) × (p ≡ port) × Lacks b'[' from_open × Lacks b']' from_close
unfolding check_brackets
check_brackets-parts h p from_open from_close host port e = (
  ground arith,
  ground arith,
  index-Lacks b'[' from_open (ground arith),
  index-Lacks b']' from_close (ground arith),
)

split_plain_sound :
    (hp host port : List ℕ) (i : ℕ)
    → last_index b':' hp ≡ some i
    → split_plain hp i ≡ parts host port
    → Address hp host port
unfolding split_plain
split_plain_sound hp host port i colon e =
    let (parted, behind) = last_index-split b':' hp i colon in
    let before = index-Lacks b':' (take i hp) (ground arith) in
    let ended : check_brackets (take i hp) (drop (i + 1) hp) hp hp ≡ parts host port =
      ground arith in
    let (h, p, opens, closes) =
      check_brackets-parts (take i hp) (drop (i + 1) hp) hp hp host port ended in
    rw (← h, ← p, add-one)
      (plain_address parted
        (before, (All-take_drop b'[' i hp opens).0, (All-take_drop b']' i hp closes).0)
        (behind, (All-take_drop b'[' (suc i) hp opens).1, (All-take_drop b']' (suc i) hp closes).1))

-- A bracketed text, by its two searches: the first bracket stands before the last colon.
opened :
    (hp : List ℕ) (end : ℕ)
    → is_char (get_elem? hp 0) b'[' ≡ true
    → index b']' hp ≡ some end
    → last_index b':' hp ≡ some (suc end)
    → (hp ≡ b'[' ∷ (drop 1 (take end hp) ++ b']' ∷ b':' ∷ drop (suc (suc end)) hp))
      × Lacks b']' (drop 1 (take end hp))
opened [] end bracket closing colon = ground arith
opened (c ∷ s) zero bracket closing colon =
    let (e, l) = index-split b']' (c ∷ s) zero closing in absurd (ground arith)
opened (c ∷ s) (suc n) bracket closing colon =
    let (e, (l, lacking)) = index-split b']' (c ∷ s) (suc n) closing in
    let (f, behind) = last_index-split b':' (c ∷ s) (suc (suc n)) colon in
    let next = drop-split b':' (c ∷ s) (suc (suc n)) f in
    let is : c ≡ b'[' = ground arith in (rw (← next) (rw (← is) e), lacking)

split_bracketed_sound :
    (hp host port : List ℕ) (i : ℕ)
    → is_char (get_elem? hp 0) b'[' ≡ true
    → last_index b':' hp ≡ some i
    → split_bracketed hp i ≡ parts host port
    → Address hp host port
unfolding split_bracketed
split_bracketed_sound hp host port i bracket colon e = elim (Option-cases (index b']' hp)) [
  | inl gone ↦ absurd (ground arith)
  | inr (end, closing) ↦
      let next : end + 1 ≡ i = ground arith in
      let ended : check_brackets (drop 1 (take end hp)) (drop (i + 1) hp) (drop 1 hp)
            (drop (end + 1) hp)
          ≡ parts host port =
        ground arith in
      let (h, p, opens, closes) =
        check_brackets-parts (drop 1 (take end hp)) (drop (i + 1) hp) (drop 1 hp)
          (drop (end + 1) hp) host port ended in
      let from : last_index b':' hp ≡ some (suc end) = ground arith in
      let (whole, lacking) = opened hp end bracket closing from in
      let (parted, behind) = last_index-split b':' hp (suc end) from in
      let (before, (_, (_, left))) =
        All-split _ (drop 1 (take end hp)) (b']' ∷ b':' ∷ drop (suc (suc end)) hp)
          (subst (λ t. Lacks b'[' (drop 1 t)) whole opens) in
      let closed =
        (subst (Lacks b']') (drop-split b':' hp (suc end) parted)
          (subst (λ n. Lacks b']' (drop n hp)) (add-one end) closes)).1 in
      let host_is : drop 1 (take end hp) ≡ host = h in
      let at : suc (suc end) ≡ i + 1 = omega arith in
      let port_is : drop (suc (suc end)) hp ≡ port = ap (λ n. drop n hp) at ∙ p in
      rw (← host_is, ← port_is) (bracketed_address whole before lacking (behind, left, closed))
]

-- What `SplitHostPort` splits is an address of the grammar.
pub split_host_port_sound :
    (hp host port : List ℕ) → split_host_port hp ≡ parts host port → Address hp host port
unfolding split_host_port
split_host_port_sound hp host port e = elim (Option-cases (last_index b':' hp)) [
  | inl gone ↦ absurd (ground arith)
  | inr (i, colon) ↦ elim (Bool-cases (is_char (get_elem? hp 0) b'[')) [
    | inl yes' ↦ split_bracketed_sound hp host port i yes' colon (ground arith)
    | inr no' ↦ split_plain_sound hp host port i colon (ground arith)
  ]
]
