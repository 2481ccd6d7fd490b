-- ===== src/Shared/Text.antt =====
-- `strings.TrimSpace`: the white space of Unicode is cut from both ends.
use Prim.Native.Char.{Char, code}
use Prim.Native.String.{String}
use mathlib.Core.Path.{◌≡◌, refl}
use mathlib.Core.Bool.{Bool, true, false, ◌&&◌, ◌||◌}
use raf_8_banka_4_backend.Shared.Tests.{leb, ◌==◌, if◌then◌else◌}

-- `unicode.IsSpace`
is_space : Char → Bool
is_space c =
    let k = code c in
    (leb 9 k && leb k 13)
    || k == 32
    || k == 0x85
    || k == 0xa0
    || k == 0x1680
    || (leb 0x2000 k && leb k 0x200a)
    || k == 0x2028
    || k == 0x2029
    || k == 0x202f
    || k == 0x205f
    || k == 0x3000

trim_left : String → String
trim_left String.[] = String.[]
trim_left (String.◌∷◌ c s) = if is_space c then trim_left s else String.◌∷◌ c s

abbrev is_empty : String → Bool
is_empty String.[] = true
is_empty (String.◌∷◌ c s) = false

-- one call, on the rest, whose result says whether `c` is followed by white space only
trim_right : String → String
trim_right String.[] = String.[]
trim_right (String.◌∷◌ c s) =
    let rest = trim_right s in if is_space c && is_empty rest then String.[] else String.◌∷◌ c rest

unfoldable pub trim_space : String → String
unfolding trim_left trim_right is_space
trim_space s = trim_right (trim_left s)

trim_space_both_ends : trim_space "  444 01 " ≡ "444 01"
unfolding trim_space
trim_space_both_ends = refl
