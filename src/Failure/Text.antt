-- ===== src/Failure/Text.antt =====
-- The standard library's functions on text that the tests on errors use, and the package's own
-- containsAny. A letter outside ASCII is lowered only where its lower case is an ASCII letter, since
-- every text that is looked for is ASCII.
use llm_supervisor_proxy.Support.{
  ℕ, ◌+◌, ◌-◌, ◌*◌, Bool, false, ◌&&◌, ◌||◌, List, [], ◌∷◌, leb, ◌==◌, if◌then◌else◌,
}
use Prim.Native.String.{String, len, find, char_at}
use Prim.Native.Char.{Char, code}

unfoldable pub text_contains : String → String → Bool
text_contains s t = leb (find s t) (len s)

abbrev lower_letters : String
lower_letters = "abcdefghijklmnopqrstuvwxyz"

abbrev kelvin_sign : ℕ
kelvin_sign = 8490

abbrev dotted_capital_i : ℕ
dotted_capital_i = 304

unfoldable pub lower_char : Char → Char
lower_char c =
    if leb 65 (code c) && leb (code c) 90
    then char_at lower_letters (code c - 65)
    else if code c == kelvin_sign
    then char_at lower_letters 10
    else (if code c == dotted_capital_i then char_at lower_letters 8 else c)

unfoldable pub to_lower : String → String
to_lower String.[] = String.[]
to_lower (String.◌∷◌ c s) = String.◌∷◌ (lower_char c) (to_lower s)

unfoldable pub contains_any : String → List String → Bool
contains_any lowered [] = false
contains_any lowered (v ∷ vocabulary) = text_contains lowered v || contains_any lowered vocabulary

abbrev pub is_digit : Char → Bool
is_digit c = leb 48 (code c) && leb (code c) 57

-- The value of the digits in front of a text, and how many they are.
unfoldable pub read_digits : String → ℕ → ℕ → ℕ × ℕ
read_digits String.[] value count = (value, count)
read_digits (String.◌∷◌ c s) value count =
    let rest = read_digits s (value * 10 + (code c - 48)) (count + 1) in
    if is_digit c then rest else (value, count)
