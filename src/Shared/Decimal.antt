-- ===== src/Shared/Decimal.antt =====
-- Decimal numbers in texts (`fmt.Sprintf`, `strconv`), and the tests of `strings` on prefixes and parts.
use Prim.Native.Char.{Char, code}
use Prim.Native.Nat.{ℕ, zero, suc, ◌+◌, ◌-◌, ◌*◌, ◌/◌, ◌%◌}
use Prim.Native.String.{String, char_at, ◌++◌}
use mathlib.Core.Path.{◌≡◌, refl}
use mathlib.Core.Bool.{Bool, true, false, ◌&&◌, ◌||◌}
use mathlib.Core.Option.{Option, none, some}
use mathlib.Core.List.{List}
use raf_8_banka_4_backend.Shared.Tests.{leb, ltb, ◌==◌, if◌then◌else◌}

-- the texts one after the other
unfoldable pub concat : List String → String
concat List.[] = String.[]
concat (List.◌∷◌ s t) = s ++ concat t

digit : ℕ → String
digit n = String.◌∷◌ (char_at "0123456789" n) String.[]

-- A number has no more digits than its value and one.
digits : ℕ → ℕ → String
digits zero n = String.[]
digits (suc fuel) n = elim (ltb n 10) [
  | true ↦ digit n
  | false ↦ digits fuel (n / 10) ++ digit (n % 10)
]

-- `%d`, and `strconv.FormatUint` with base 10
unfoldable pub show_ℕ : ℕ → String
unfolding digits digit
show_ℕ n = digits (suc n) n

-- `%03d`
unfoldable pub show_ℕ_width_3 : ℕ → String
show_ℕ_width_3 n =
    if ltb n 10 then "00" ++ show_ℕ n else if ltb n 100 then "0" ++ show_ℕ n else show_ℕ n

parse_digits : ℕ → String → Option ℕ
parse_digits n String.[] = some n
parse_digits n (String.◌∷◌ c s) =
    let rest = parse_digits (10 * n + (code c - 48)) s in
    if leb 48 (code c) && leb (code c) 57 then rest else none

within_64 : Option ℕ → Option ℕ
within_64 none = none
within_64 (some n) = if ltb n (0x10000000000000000) then some n else none

-- `strconv.ParseUint` with base 10 and 64 bits; `none` for its errors
unfoldable pub parse_uint : String → Option ℕ
unfolding parse_digits within_64
parse_uint String.[] = none
parse_uint (String.◌∷◌ c s) = within_64 (parse_digits 0 (String.◌∷◌ c s))

-- `strings.HasPrefix`
unfoldable pub has_prefix : String → String → Bool
has_prefix s String.[] = true
has_prefix String.[] (String.◌∷◌ d p) = false
has_prefix (String.◌∷◌ c s) (String.◌∷◌ d p) = code c == code d && has_prefix s p

-- The lower case of the characters whose lower case is an ASCII letter other than k.
lower_code : Char → ℕ
lower_code c =
    if leb 65 (code c) && leb (code c) 90
    then code c + 32
    else if code c == 0x130
    then 105
    else code c

starts_lower : String → String → Bool
starts_lower s String.[] = true
starts_lower String.[] (String.◌∷◌ d p) = false
starts_lower (String.◌∷◌ c s) (String.◌∷◌ d p) = lower_code c == code d && starts_lower s p

-- `strings.Contains(strings.ToLower(text), part)` for a `part` in lower case ASCII without a k
unfoldable pub contains_lower : String → String → Bool
unfolding starts_lower lower_code
contains_lower String.[] p = starts_lower String.[] p
contains_lower (String.◌∷◌ c s) p = starts_lower (String.◌∷◌ c s) p || contains_lower s p

decimal_forms : concat (List.◌∷◌ (show_ℕ 4440) (List.◌∷◌ (show_ℕ_width_3 7) List.[])) ≡ "4440007"
unfolding concat show_ℕ show_ℕ_width_3
decimal_forms = refl

decimal_numbers : parse_uint "0123" ≡ some 123
unfolding parse_uint
decimal_numbers = refl

too_large : parse_uint "18446744073709551616" ≡ none
unfolding parse_uint
too_large = refl

says_insufficient : contains_lower "rpc error: INSUFFICIENT funds" "insufficient" ≡ true
unfolding contains_lower
says_insufficient = refl
