-- ===== src/Std/Net/Laws.antt =====
-- Splitting an address whose host is plain, and one whose host stands in brackets.
use gopack.Prelude.{
  All, All-map, ℕ, suc, ◌+◌, ◌≡◌, refl, ◌∙◌, ap, false, List, [], ◌∷◌, ◌++◌, some, arith, length,
  All-append, drop, take-append, drop-append_cons, append_assoc, get_elem?, length-append, eqb-true,
  eqb-false,
}
use native.Mathlib.Numerals.{add-one}
use gopack.Std.Strconv.Laws.{IsDigit}
use gopack.Std.Strings.{last_index}
use gopack.Std.Strings.Laws.{Lacks, index-none, index-append, last_index-append}
use gopack.Std.Net.{split_host_port, split_plain, split_bracketed, check_brackets, parts, is_char}

abbrev pub IsPlain : List ℕ → Type 0
IsPlain s = Lacks b':' s × Lacks b'[' s × Lacks b']' s

pub digits-IsPlain : (s : List ℕ) → All IsDigit s → IsPlain s
digits-IsPlain s a = (
  All-map IsDigit _ (λ c h. λ e. omega arith) s a,
  All-map IsDigit _ (λ c h. λ e. omega arith) s a,
  All-map IsDigit _ (λ c h. λ e. omega arith) s a,
)

not_bracketed :
    (host port : List ℕ)
    → Lacks b'[' host
    → is_char (get_elem? (host ++ b':' ∷ port) 0) b'[' ≡ false
not_bracketed [] port h = refl
not_bracketed (c ∷ host) port h = ground arith

split_plain_lem :
    (host port : List ℕ)
    → IsPlain host
    → IsPlain port
    → split_plain (host ++ b':' ∷ port) (length host) ≡ parts host port
unfolding split_plain check_brackets
split_plain_lem host port (h0, h1, h2) (p0, p1, p2) = rw (
  take-append host (b':' ∷ port),
  index-none b':' host h0,
  index-none b'[' _ (All-append _ host (b':' ∷ port) h1 (omega arith, p1)),
  index-none b']' _ (All-append _ host (b':' ∷ port) h2 (omega arith, p2)),
  add-one,
  drop-append_cons host b':' port,
)

-- A host and a port without colons and brackets are what stands around the colon.
pub split_host_port_of_plain :
    (host port : List ℕ)
    → IsPlain host
    → IsPlain port
    → split_host_port (host ++ b':' ∷ port) ≡ parts host port
unfolding split_host_port
split_host_port_of_plain host port h p =
    rw (last_index-append b':' host port p.0, split_host_port)
      (rw (not_bracketed host port h.1) (split_plain_lem host port h p))

drop-append_pair {ℓ} :
    {A : Type ℓ} (xs : List A) (y z : A) (ys : List A)
    → drop (suc (suc (length xs))) (xs ++ y ∷ z ∷ ys) ≡ ys
drop-append_pair [] y z ys = refl
drop-append_pair (x ∷ xs) y z ys = drop-append_pair xs y z ys

last_colon :
    (host port : List ℕ)
    → Lacks b':' port
    → last_index b':' (b'[' ∷ (host ++ b']' ∷ b':' ∷ port)) ≡ some (suc (suc (length host)))
last_colon host port p =
    let e : b'[' ∷ ((host ++ b']' ∷ []) ++ b':' ∷ port) ≡ b'[' ∷ (host ++ b']' ∷ b':' ∷ port) =
      ap (λ t. b'[' ∷ t) (append_assoc host (b']' ∷ []) (b':' ∷ port)) in
    rw (← e) (
      last_index-append b':' (b'[' ∷ (host ++ b']' ∷ [])) port p
      ∙ ap some (omega (arith, length-append {0} host (b']' ∷ []))))

split_bracketed_lem :
    (host port : List ℕ)
    → Lacks b'[' host
    → Lacks b']' host
    → IsPlain port
    → split_bracketed (b'[' ∷ (host ++ b']' ∷ b':' ∷ port)) (suc (suc (length host)))
      ≡ parts host port
unfolding split_bracketed check_brackets
split_bracketed_lem host port h1 h2 (p0, p1, p2) =
    rw (index-append b']' (b'[' ∷ host) (b':' ∷ port) (omega arith, h2), split_bracketed)
      (rw (
        eqb-false (suc (length host) + 1) (suc (length (host ++ b']' ∷ b':' ∷ port)))
            (λ e. omega (arith, length-append {0} host (b']' ∷ b':' ∷ port))),
        eqb-true (suc (length host) + 1) (suc (suc (length host))) (omega arith),
        take-append host (b']' ∷ b':' ∷ port),
        index-none b'[' (host ++ b']' ∷ b':' ∷ port)
            (All-append _ host (b']' ∷ b':' ∷ port) h1 (omega arith, (omega arith, p1))),
        add-one,
        add-one,
        drop-append_pair host b']' b':' port,
        drop-append_cons host b']' (b':' ∷ port),
        index-none b']' (b':' ∷ port) (omega arith, p2),
      ))

-- A bracketed host may hold colons, as an IPv6 address does.
pub split_host_port_of_bracketed :
    (host port : List ℕ)
    → Lacks b'[' host
    → Lacks b']' host
    → IsPlain port
    → split_host_port (b'[' ∷ (host ++ b']' ∷ b':' ∷ port)) ≡ parts host port
unfolding split_host_port
split_host_port_of_bracketed host port h1 h2 p =
    rw (last_colon host port p.0, split_host_port) (split_bracketed_lem host port h1 h2 p)
