-- ===== src/Validation/Accepted.antt =====
-- What an address that `TCPAddressValidator` accepts looks like (validation/tcp_address.go).
use gopack.Prelude.{
  String, ℕ, ◌≡◌, ◌≢◌, ◌↔◌, ◌≤◌, refl, List, [], ◌∷◌, ◌++◌, none, arith, pos, negsuc,
}
use gopack.Std.Strings.{codes, trim_space}
use gopack.Std.Strconv.{atoi, Parsed, number, malformed}
use gopack.Std.Strconv.Sound.{IsSign, Writes, atoi-number}
use gopack.Std.Net.{HostPort, parts, refused, split_host_port}
use gopack.Std.Net.Sound.{Address, split_host_port_sound, split_host_port_complete}
use gopack.Validation.{TcpAddressValidator, validate_tcp_address, check_address, check_port}

check_port-none :
    (address : String) (host : List ℕ) (p : Parsed)
    → check_port address host p ≡ none
    → (n : ℕ) × (p ≡ number (pos n)) × (n ≤ 65535) × (host ≢ [])
unfolding check_port
check_port-none address [] (number z) e = absurd (ground arith)
check_port-none address (c ∷ s) (number (pos n)) e = (n, refl, ground arith, λ h. ground arith)
check_port-none address (c ∷ s) (number (negsuc n)) e = absurd (ground arith)
check_port-none address host (malformed err) e = absurd (ground arith)

check_address-none :
    (address : String) (hp : HostPort)
    → check_address address hp ≡ none
    → (host : List ℕ) × (port : List ℕ) × (n : ℕ) × (hp ≡ parts host port)
      × (host ≢ [])
      × (atoi port ≡ number (pos n))
      × (n ≤ 65535)
unfolding check_address
check_address-none address (refused err) e = absurd (ground arith)
check_address-none address (parts host port) e =
    let (n, is, bound, filled) = check_port-none address host (atoi port) e in
    (host, port, n, refl, filled, is, bound)

-- An accepted address, without the spaces around it, is `host:port` or `[host]:port` for a host that
-- is not empty, and its port is digits that write a number of at most 65535, behind a sign or none,
-- and are read as that number: no other text passes.
pub validate_tcp_address-Address :
    (a : TcpAddressValidator)
    → validate_tcp_address a ≡ none
    → (host : List ℕ) × (sign : List ℕ) × (digits : List ℕ) × (n : ℕ) × Address
        (trim_space (codes a.address))
        host
        (sign ++ digits)
      × (host ≢ [])
      × IsSign sign
      × Writes digits n
      × (atoi (sign ++ digits) ≡ number (pos n))
      × (n ≤ 65535)
unfolding validate_tcp_address
validate_tcp_address-Address a e =
    let hp = trim_space (codes a.address) in
    let (host, port, n, split, filled, is, bound) =
      check_address-none a.address (split_host_port hp) e in
    let (sign, digits, parted, signs, writes) = atoi-number port n is in
    (
      host,
      sign,
      digits,
      n,
      rw (← parted) (split_host_port_sound hp host port split),
      filled,
      signs,
      writes,
      rw (← parted) is,
      bound,
    )

-- An address of the grammar whose host is not empty and whose port reads as a number of at most
-- 65535 is accepted.
pub validate_tcp_address_of_Address :
    (a : TcpAddressValidator) (host port : List ℕ) (n : ℕ)
    → Address (trim_space (codes a.address)) host port
    → host ≢ []
    → atoi port ≡ number (pos n)
    → n ≤ 65535
    → validate_tcp_address a ≡ none
unfolding validate_tcp_address check_address check_port
validate_tcp_address_of_Address a [] port n of_grammar filled is bound = absurd (filled refl)
validate_tcp_address_of_Address a (c ∷ s) port n of_grammar filled is bound =
    rw (split_host_port_complete (trim_space (codes a.address)) (c ∷ s) port of_grammar, is)
      (ground arith)

-- An address is accepted exactly if, without the spaces around it, it is `host:port` or
-- `[host]:port` for a host that is not empty and a port of digits, behind a sign or none, that
-- write a number of at most 65535 and are read as that number.
pub validate_tcp_address-none_iff :
    (a : TcpAddressValidator)
    → (validate_tcp_address a ≡ none) ↔ (
        (host : List ℕ) × (sign : List ℕ) × (digits : List ℕ) × (n : ℕ) × Address
          (trim_space (codes a.address))
          host
          (sign ++ digits)
        × (host ≢ [])
        × IsSign sign
        × Writes digits n
        × (atoi (sign ++ digits) ≡ number (pos n))
        × (n ≤ 65535))
validate_tcp_address-none_iff a = (
  λ e.
      let (host, sign, digits, n, address, filled, signs, writes, read, bound) =
        validate_tcp_address-Address a e in
      (host, sign, digits, n, address, filled, signs, writes, read, bound),
  λ accepted.
      let (host, sign, digits, n, address, filled, signs, writes, read, bound) = accepted in
      validate_tcp_address_of_Address a host (sign ++ digits) n address filled read bound,
)
