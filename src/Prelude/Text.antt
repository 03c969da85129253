-- ===== src/Prelude/Text.antt =====
-- What the program uses of Go's package strings. Texts are valid UTF-8, so that byte prefixes and
-- suffixes are prefixes and suffixes of code points, and the order of bytes is that of code points.
use Prim.Native.Nat.{ℕ, zero, suc, ◌+◌, ◌/◌, ◌%◌}
use Prim.Native.Char.{Char, code}
use Prim.Native.String
use Prim.Native.String.{String, [], ◌∷◌}
use mathlib.Core.Bool.{Bool, true, false, ◌&&◌, ◌||◌}
use mathlib.Core.List.{List}
use mathlib.Core.Option.{Option, none, some}
use text.Mathlib.Text.{◌==◌}
use rpaas_operator.Prelude.Int.{ℤ, pos, negsuc}
use rpaas_operator.Prelude.Tests.{nat_eq, leb, ltb, if◌then◌else◌}

-- unicode.IsSpace
unfoldable pub is_space : Char → Bool
is_space c =
    let n = code c in
    (leb 9 n && leb n 13)
    || nat_eq n 32
    || nat_eq n 0x85
    || nat_eq n 0xa0
    || nat_eq n 0x1680
    || (leb 0x2000 n && leb n 0x200a)
    || nat_eq n 0x2028
    || nat_eq n 0x2029
    || nat_eq n 0x202f
    || nat_eq n 0x205f
    || nat_eq n 0x3000

trim_left : String → String
trim_left [] = []
trim_left (c ∷ s) = let rest = trim_left s in if is_space c then rest else c ∷ s

trim_right : String → String
trim_right [] = []
trim_right (c ∷ s) = let rest = trim_right s in if is_space c && rest == "" then [] else c ∷ rest

unfoldable pub trim_space : String → String
unfolding trim_left trim_right is_space
trim_space s = trim_right (trim_left s)

unfoldable pub has_prefix : String → String → Bool
has_prefix s [] = true
has_prefix [] (c ∷ p) = false
has_prefix (d ∷ s) (c ∷ p) = nat_eq (code d) (code c) && has_prefix s p

unfoldable pub has_suffix : String → String → Bool
has_suffix [] p = p == ""
has_suffix (c ∷ s) p = (c ∷ s) == p || has_suffix s p

-- The text without its first characters, as many as the prefix has.
after_prefix : String → String → String
after_prefix s [] = s
after_prefix [] (c ∷ p) = []
after_prefix (d ∷ s) (c ∷ p) = after_prefix s p

unfoldable pub trim_prefix : String → String → String
unfolding has_prefix after_prefix
trim_prefix s p = if has_prefix s p then after_prefix s p else s

-- `s < t`
unfoldable pub str_ltb : String → String → Bool
str_ltb [] [] = false
str_ltb [] (d ∷ t) = true
str_ltb (c ∷ s) [] = false
str_ltb (c ∷ s) (d ∷ t) = ltb (code c) (code d) || (nat_eq (code c) (code d) && str_ltb s t)

-- strings.Split at a separator of one character.
split_from : Char → String → String → List String
split_from sep cur [] = List.◌∷◌ cur List.[]
split_from sep cur (c ∷ s) =
    let closed = split_from sep [] s in
    let longer = split_from sep (String.◌++◌ cur (c ∷ [])) s in
    if nat_eq (code c) (code sep) then List.◌∷◌ cur closed else longer

unfoldable pub split : Char → String → List String
unfolding split_from
split sep s = split_from sep [] s

-- The bytes of a character in UTF-8.
unfoldable pub char_width : Char → ℕ
char_width c =
    if ltb (code c) 0x80
    then 1
    else if ltb (code c) 0x800
    then 2
    else if ltb (code c) 0x10000
    then 3
    else 4

-- `len(s)`, the length in bytes of the UTF-8 encoding.
unfoldable pub byte_length : String → ℕ
unfolding char_width
byte_length [] = 0
byte_length (c ∷ s) = char_width c + byte_length s

-- The text before and after the first such character (strings.Cut).
unfoldable pub cut : Char → String → Option (String × String)
cut sep [] = none
cut sep (c ∷ s) =
    let later = cut sep s in
    if nat_eq (code c) (code sep)
    then some ([], s)
    else elim later [ none ↦ none | some (a, b) ↦ some (c ∷ a, b) ]

digit : ℕ → String
digit n =
    if nat_eq n 0
    then "0"
    else if nat_eq n 1
    then "1"
    else if nat_eq n 2
    then "2"
    else if nat_eq n 3
    then "3"
    else if nat_eq n 4
    then "4"
    else if nat_eq n 5
    then "5"
    else if nat_eq n 6
    then "6"
    else if nat_eq n 7
    then "7"
    else if nat_eq n 8
    then "8"
    else "9"

-- The decimal digits of a number that has at most one more of them than there is fuel.
unfoldable pub digits_within : ℕ → ℕ → String
unfolding digit
digits_within zero n = digit n
digits_within (suc fuel) n =
    let front = digits_within fuel (n / 10) in
    if ltb n 10 then digit n else String.◌++◌ front (digit (n % 10))

-- strconv.Itoa; dividing by ten as often as the value of a number gives leaves a digit.
unfoldable pub itoa : ℤ → String
unfolding digits_within
itoa (pos n) = digits_within n n
itoa (negsuc n) = String.◌++◌ "-" (digits_within (suc n) (suc n))

-- strings.Join
unfoldable pub join : String → List String → String
join sep List.[] = ""
join sep (List.◌∷◌ s List.[]) = s
join sep (List.◌∷◌ s (List.◌∷◌ t ts)) = String.◌++◌ s (String.◌++◌ sep (join sep (List.◌∷◌ t ts)))
