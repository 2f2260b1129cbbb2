-- ===== src/Std/Net.antt =====
-- net.SplitHostPort, over code points.
pub mod Laws
pub mod Sound
use gopack.Prelude.{
  Error, message, ℕ, zero, suc, ◌+◌, Bool, true, false, List, [], ◌∷◌, Option, none, some, eqb,
  is_some, length, take, drop, get_elem?, if◌then◌else◌,
}
use gopack.Std.Strings.{index, last_index}

pub data AddrError : Type 0 where
  missing_port missing_bracket too_many_colons unexpected_open unexpected_close : AddrError

-- the errors, by their texts
abbrev pub addr_error : AddrError → Error
addr_error missing_port = message "missing port in address"
addr_error missing_bracket = message "missing ']' in address"
addr_error too_many_colons = message "too many colons in address"
addr_error unexpected_open = message "unexpected '[' in address"
addr_error unexpected_close = message "unexpected ']' in address"

pub data HostPort : Type 0 where
  parts : List ℕ → List ℕ → HostPort
  refused : AddrError → HostPort

abbrev pub is_char : Option ℕ → ℕ → Bool
is_char none c = false
is_char (some d) c = eqb d c

-- the end of the function: no bracket where none may stand
pub check_brackets : List ℕ → List ℕ → List ℕ → List ℕ → HostPort
check_brackets host port behind_open behind_close =
    if is_some (index b'[' behind_open)
    then refused unexpected_open
    else if is_some (index b']' behind_close)
    then refused unexpected_close
    else parts host port

-- `hp[0] == '['`; `i` is the position of the last colon
pub split_bracketed : List ℕ → ℕ → HostPort
split_bracketed hp i = elim (index b']' hp) [
  | none ↦ refused missing_bracket
  | some end ↦
      if eqb (end + 1) (length hp)
      then refused missing_port
      else if eqb (end + 1) i
      then check_brackets (drop 1 (take end hp)) (drop (i + 1) hp) (drop 1 hp) (drop (end + 1) hp)
      else if is_char (get_elem? hp (end + 1)) b':'
      then refused too_many_colons
      else refused missing_port
]

pub split_plain : List ℕ → ℕ → HostPort
split_plain hp i =
    if is_some (index b':' (take i hp))
    then refused too_many_colons
    else check_brackets (take i hp) (drop (i + 1) hp) hp hp

unfoldable pub split_host_port : List ℕ → HostPort
unfolding check_brackets split_bracketed split_plain
split_host_port hp = elim (last_index b':' hp) [
  | none ↦ refused missing_port
  | some i ↦ if is_char (get_elem? hp 0) b'[' then split_bracketed hp i else split_plain hp i
]
