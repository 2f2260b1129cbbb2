-- ===== src/Validation/TcpAddress.antt =====
-- Which addresses `TCPAddressValidator` accepts (validation/tcp_address.go).
use gopack.Prelude.{
  ℕ, ◌≡◌, false, List, ◌∷◌, ◌++◌, Option, none, some, Error, message, arith, All, All-map, leb,
  if◌then◌else◌,
}
use native.Mathlib.Decide.{dec_le}
use gopack.Std.Strings.{codes, is_space}
use gopack.Std.Strings.Laws.{Lacks, NoSpace, trim_space-append, is_space_of_graphic}
use gopack.Std.Strconv.{decimal, max_int64, atoi}
use gopack.Std.Strconv.Laws.{IsDigit, decimal-All, atoi-decimal, atoi-decimal_over}
use gopack.Std.Net.Laws.{
  digits-IsPlain, IsPlain, split_host_port_of_plain, split_host_port_of_bracketed,
}
use gopack.Validation.{
  TcpAddressValidator, validate_tcp_address, check_address, check_port, invalid,
}

digits-NoSpace : (s : List ℕ) → All IsDigit s → NoSpace s
digits-NoSpace s = All-map IsDigit _ (λ c h. is_space_of_graphic c (omega arith) (omega arith)) s

-- The verdict on a port number.
abbrev pub verdict : TcpAddressValidator → ℕ → Option Error
verdict a n =
    if leb n 65535
    then none
    else some (
        invalid a.address
          (if leb n max_int64 then message "invalid address" else message "value out of range"))

check_port-decimal :
    (a : TcpAddressValidator) (c : ℕ) (s : List ℕ) (n : ℕ)
    → check_port a.address (c ∷ s) (atoi (decimal n)) ≡ verdict a n
unfolding check_port
check_port-decimal a c s n = elim (dec_le n max_int64) [
  | yes small ↦ rw (atoi-decimal n small) (ground arith)
  | no large ↦ rw (atoi-decimal_over n (omega arith)) (ground arith)
]

-- An address `host:port` whose host is not empty, begins with no space and holds no colon or
-- bracket, and whose port is a decimal number, is accepted exactly up to port 65535. A larger port
-- is refused with the error that the range of an int64 decides.
pub validate_tcp_address_of_plain :
    (a : TcpAddressValidator) (c : ℕ) (s : List ℕ) (n : ℕ)
    → is_space c ≡ false
    → IsPlain (c ∷ s)
    → codes a.address ≡ c ∷ (s ++ b':' ∷ decimal n)
    → validate_tcp_address a ≡ verdict a n
unfolding validate_tcp_address check_address
validate_tcp_address_of_plain a c s n visible plain is =
    let digits = decimal-All n in
    rw
      (
        is,
        trim_space-append c s b':' (decimal n) visible (
          is_space_of_graphic b':' (omega arith) (omega arith),
          digits-NoSpace (decimal n) digits,
        ),
        split_host_port_of_plain (c ∷ s) (decimal n) plain (digits-IsPlain (decimal n) digits),
      )
      (check_port-decimal a c s n)

-- So is an address `[host]:port` whose host is not empty and holds no bracket. It may hold colons,
-- as an IPv6 address does.
pub validate_tcp_address_of_bracketed :
    (a : TcpAddressValidator) (c : ℕ) (s : List ℕ) (n : ℕ)
    → Lacks b'[' (c ∷ s)
    → Lacks b']' (c ∷ s)
    → codes a.address ≡ b'[' ∷ ((c ∷ s) ++ b']' ∷ b':' ∷ decimal n)
    → validate_tcp_address a ≡ verdict a n
unfolding validate_tcp_address check_address
validate_tcp_address_of_bracketed a c s n opens closes is =
    let digits = decimal-All n in
    rw
      (
        is,
        trim_space-append b'[' (c ∷ s) b']' (b':' ∷ decimal n)
            (is_space_of_graphic b'[' (omega arith) (omega arith))
            (
              is_space_of_graphic b']' (omega arith) (omega arith),
              (
                is_space_of_graphic b':' (omega arith) (omega arith),
                digits-NoSpace (decimal n) digits,
              ),
            ),
        split_host_port_of_bracketed (c ∷ s) (decimal n) opens closes
            (digits-IsPlain (decimal n) digits),
      )
      (check_port-decimal a c s n)
