-- ===== src/Validation/Tests.antt =====
-- Runs of validators and chains, and the laws at concrete inputs.
use gopack.Prelude.{
  ℕ, ◌≢◌, ◌≤◌, ◌≡◌, ◌↔◌, pos, refl, ◌++◌, String, Bool, false, true, List, [], ◌∷◌, none, message,
  arith,
}
use gopack.Samples.{joining}
use gopack.Errorschain.{return_all, new, add_errors, error}
use gopack.Errorschain.Laws.{reports}
use gopack.Std.Strings.{is_space}
use gopack.Validation.{
  Validator, boolean, conditional, empty_string, pattern_of, Chain, validate, validate_chain,
  validate_tcp_address, TcpAddressValidator,
}
use gopack.Validation.Laws.{results, validate_chain-error, validate_chain-all_errors}
use gopack.Validation.Accepted.{validate_tcp_address_of_Address, validate_tcp_address-none_iff}
use gopack.Std.Strings.{codes, trim_space}
use gopack.Std.Strconv.{atoi, number}
use gopack.Std.Strconv.Sound.{IsSign, Writes}
use gopack.Std.Net.Sound.{Address, bracketed_address}

-- a pattern that every text matches, and no other
abbrev match_any : String → String → Bool
match_any pat text = elim pat [ String.[] ↦ true | _ ↦ false ]

abbrev checks : List Validator
checks =
    boolean true "fine"
    ∷ conditional true (boolean false "one")
    ∷ conditional false (boolean false "skipped")
    ∷ empty_string "" "name"
    ∷ pattern_of "x" "y" none
    ∷ pattern_of "" "y" none
    ∷ []

abbrev collecting : Chain
collecting = record { fail_fast = false; validators = checks; violations = none }

abbrev stopping : Chain
stopping = record { fail_fast = true; validators = checks; violations = none }

reported :
    joining.errors (validate_chain match_any joining collecting).1
    ≡ message "one" ∷ message "the [name] is required" ∷ message "invalid expression" ∷ []
unfolding validate_chain validate
reported = refl

validate_chain-error_example :
    (validate_chain match_any joining collecting).1
    ≡ error joining (add_errors (results match_any joining checks) (new (return_all ∷ [])))
validate_chain-error_example = validate_chain-error match_any joining collecting refl

validate_chain-all_errors_example :
    let r = validate_chain match_any joining collecting in
    (joining.errors r.1 ≡ [] ++ reports joining (results match_any joining checks))
    × (r.0 ≡ record collecting { violations = r.1 })
validate_chain-all_errors_example = validate_chain-all_errors match_any joining collecting refl

abbrev local : TcpAddressValidator
local = record { address = "host:65536" }

abbrev loopback : TcpAddressValidator
loopback = record { address = "[::1]:80" }

-- the address that the validator reads
loopback_parts :
    Address (trim_space (codes loopback.address)) (b':' ∷ b':' ∷ b'1' ∷ []) (b'8' ∷ b'0' ∷ [])
unfolding trim_space is_space
loopback_parts = bracketed_address refl (omega arith) (omega arith) (omega arith)

validate_tcp_address-none_iff_example : (validate_tcp_address loopback ≡ none) ↔ (
    (host : List ℕ) × (sign : List ℕ) × (digits : List ℕ) × (n : ℕ) × Address
      (trim_space (codes loopback.address))
      host
      (sign ++ digits)
    × (host ≢ [])
    × IsSign sign
    × Writes digits n
    × (atoi (sign ++ digits) ≡ number (pos n))
    × (n ≤ 65535))
validate_tcp_address-none_iff_example = validate_tcp_address-none_iff loopback

accepted : validate_tcp_address loopback ≡ none
unfolding atoi
accepted =
    validate_tcp_address_of_Address loopback (b':' ∷ b':' ∷ b'1' ∷ []) (b'8' ∷ b'0' ∷ []) 80
      loopback_parts (λ e. ground arith) refl (omega arith)
