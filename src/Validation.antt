-- ===== src/Validation.antt =====
-- validation/: validators and the chain that runs them.
-- A `Validator` is one of the package's own, or `client`: one of the caller's, by the error that it
-- returns. A chain changes its `violations`, so `validate_chain` returns the chain as well.
pub mod Laws
pub mod TcpAddress
pub mod Accepted
pub mod Nested
mod Tests
use gopack.Prelude.{
  ℕ, ◌≤◌, String, Bool, true, false, not, ◌||◌, List, [], ◌∷◌, ◌++◌, Option, none, some, Error,
  message, wrapped, Multierr, ltb, if◌then◌else◌, is_some, ℤ, pos, negsuc,
}
use text.Mathlib.Text.{◌==◌}
use Prim.Native.String
use gopack.Std.Strings.{codes, trim_space}
use gopack.Std.Strconv.{num_error, NumError, syntax, range, Parsed, number, malformed, atoi}
use gopack.Std.Net.{
  addr_error, AddrError, missing_port, missing_bracket, too_many_colons, unexpected_open,
  unexpected_close, HostPort, parts, refused, split_host_port,
}

-- `TCPAddressValidator`
pub record TcpAddressValidator : Type 0 where
  pub address : String

pub new_tcp_address_validator : String → TcpAddressValidator
new_tcp_address_validator address = record { address = address }

-- `fmt.Errorf(errFmt, a.address, err)`
abbrev pub invalid : String → Error → Error
invalid address err = wrapped (String.◌++◌ (String.◌++◌ "invalid address=(" address) "): ") err

abbrev is_empty : List ℕ → Bool
is_empty [] = true
is_empty (c ∷ s) = false

abbrev above_max : ℤ → Bool
above_max (pos n) = ltb 65535 n
above_max (negsuc n) = false

abbrev is_negative : ℤ → Bool
is_negative (pos n) = false
is_negative (negsuc n) = true

-- the part of `Validate` behind `SplitHostPort`, with its results
pub check_port : String → List ℕ → Parsed → Option Error
check_port address host (malformed err) = some (invalid address (num_error err))
check_port address host (number port_num) =
    if is_empty host || above_max port_num || is_negative port_num
    then some (invalid address (message "invalid address"))
    else none

pub check_address : String → HostPort → Option Error
check_address address (refused err) = some (invalid address (addr_error err))
check_address address (parts host port) = check_port address host (atoi port)

-- `(*TCPAddressValidator).Validate`
pub validate_tcp_address : TcpAddressValidator → Option Error
unfolding check_address check_port
validate_tcp_address a = check_address a.address (split_host_port (trim_space (codes a.address)))

pub data Validator : Type 0 where
  boolean : Bool → String → Validator
  conditional : Bool → Validator → Validator
  empty_string : String → String → Validator
  pattern_of : String → String → Option Error → Validator
  tcp_address : TcpAddressValidator → Validator
  client : Option Error → Validator

pub new_boolean_validator : Bool → String → Validator
new_boolean_validator bool_check err_message = boolean bool_check err_message

pub new_conditional_validator : Bool → Validator → Validator
new_conditional_validator condition validator = conditional condition validator

pub new_empty_string_validator : String → String → Validator
new_empty_string_validator field_name field_value = empty_string field_value field_name

pub new_pattern_validator : String → String → Option Error → Validator
new_pattern_validator pat expression custom_err = pattern_of pat expression custom_err

-- `booleanValidator.Validate`
pub validate_boolean : Bool → String → Option Error
validate_boolean bool_check err_message =
    if not bool_check then some (message err_message) else none

-- `emptyStringValidator.Validate`
pub validate_empty_string : String → String → Option Error
validate_empty_string field_value field_name =
    if field_value == ""
    then some (message (String.◌++◌ (String.◌++◌ "the [" field_name) "] is required"))
    else none

-- `patternValidator.Validate`; `matched` is the result of `regexp.MatchString`
pub validate_pattern : Bool → Option Error → Option Error
validate_pattern matched custom_err =
    if not matched
    then (if is_some custom_err then custom_err else some (message "invalid expression"))
    else none

pub record Chain : Type 0 where
  pub fail_fast : Bool
  pub validators : List Validator
  pub violations : Option Error

abbrev pub ChainOption : Type 0
ChainOption = Chain → Chain

pub fail_fast : ChainOption
fail_fast c = record c { fail_fast = true }

pub all_errors : ChainOption
all_errors c = record c { fail_fast = false }

-- the loop of `New` over its options
pub apply_options : List ChainOption → Chain → Chain
apply_options [] c = c
apply_options (opt ∷ opts) c = apply_options opts (opt c)

pub new : List ChainOption → Chain
unfolding apply_options
new opts = apply_options opts (record { fail_fast = false; validators = []; violations = none })

pub add_validator : Validator → Chain → Chain
add_validator v c = record c { validators = c.validators ++ v ∷ [] }

pub add_assertion : Bool → String → Chain → Chain
unfolding new_boolean_validator
add_assertion is_true msg c = record c {
  validators = c.validators ++ new_boolean_validator is_true msg ∷ [];
}

-- `match_string pattern text` is the first result of `regexp.MatchString`.
module _ (match_string : String → String → Bool) where
  -- `Validator.Validate`, by the type of the validator
  pub validate : Validator → Option Error
  unfolding validate_boolean validate_empty_string validate_pattern
  validate (boolean b msg) = validate_boolean b msg
  validate (conditional c v) = let inner = validate v in if c then inner else none
  validate (empty_string value name) = validate_empty_string value name
  validate (pattern_of pat expression custom_err) =
      validate_pattern (match_string pat expression) custom_err
  validate (tcp_address a) = validate_tcp_address a
  validate (client result) = result

  module _ (m : Multierr) where
    -- What the loop does with one validator's result: it goes on with the violations, or returns.
    -- The first component is `c.violations`, the second is the result of the method.
    pub validate_from : Bool → Option Error → List Validator → Option Error × Option Error
    validate_from fast acc [] = (acc, acc)
    validate_from fast acc (v ∷ vs) =
        let go_on = validate_from fast acc vs in
        let collect = validate_from fast (m.append acc (validate v)) vs in
        if is_some (validate v) then (if fast then (acc, validate v) else collect) else go_on

    -- `(*Chain).Validate`
    pub validate_chain : Chain → Chain × Option Error
    unfolding validate_from
    validate_chain c =
        let (violations, result) = validate_from c.fail_fast c.violations c.validators in
        (record c { violations = violations }, result)
