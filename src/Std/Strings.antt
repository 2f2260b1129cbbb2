-- ===== src/Std/Strings.antt =====
-- strings.TrimSpace and the searches for one character.
pub mod Laws
pub mod Sound
use Prim.Native.Char.{code}
use gopack.Prelude.{
  ℕ, zero, suc, String, Bool, true, false, ◌&&◌, ◌||◌, List, [], ◌∷◌, Option, none, some, leb, eqb,
  if◌then◌else◌,
}
use mathlib.Core.Option

abbrev pub codes : String → List ℕ
codes String.[] = []
codes (String.◌∷◌ c s) = code c ∷ codes s

-- unicode.IsSpace
unfoldable pub is_space : ℕ → Bool
is_space c =
    (leb 9 c && leb c 13)
    || eqb c 32
    || eqb c 0x85
    || eqb c 0xA0
    || eqb c 0x1680
    || (leb 0x2000 c && leb c 0x200A)
    || eqb c 0x2028
    || eqb c 0x2029
    || eqb c 0x202F
    || eqb c 0x205F
    || eqb c 0x3000

pub trim_left : List ℕ → List ℕ
trim_left [] = []
trim_left (c ∷ s) = if is_space c then trim_left s else c ∷ s

-- `c` stays if it is no space, or if something is left behind it
abbrev pub keep : ℕ → List ℕ → List ℕ
keep c [] = if is_space c then [] else c ∷ []
keep c (d ∷ s) = c ∷ d ∷ s

pub trim_right : List ℕ → List ℕ
trim_right [] = []
trim_right (c ∷ s) = keep c (trim_right s)

unfoldable pub trim_space : List ℕ → List ℕ
unfolding trim_left trim_right is_space
trim_space s = trim_right (trim_left s)

-- strings.IndexByte and strings.LastIndexByte; `none` is -1
unfoldable pub index : ℕ → List ℕ → Option ℕ
index c [] = none
index c (d ∷ s) = if eqb d c then some 0 else Option.map suc (index c s)

abbrev pub later : Option ℕ → Bool → Option ℕ
later (some i) b = some (suc i)
later none b = if b then some 0 else none

unfoldable pub last_index : ℕ → List ℕ → Option ℕ
last_index c [] = none
last_index c (d ∷ s) = later (last_index c s) (eqb d c)
