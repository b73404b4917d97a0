-- ===== src/Prelude/Text.antt =====
-- Template literals, `join`, and the string methods that the program uses. Lower case is that of
-- ASCII letters: the program lowers addresses, hashes and transaction ids only.
use Prim.Native.Nat.{ℕ, zero, suc, ◌-◌, ◌/◌, ◌%◌}
use Prim.Native.Char.{Char, code}
use Prim.Native.String.{String, ◌++◌, compare}
use text.Mathlib.Text.{is_lt}
use mathlib.Core.Bool.{Bool, true, false, ◌&&◌}
use mathlib.Core.Option.{Option, none, some}
use mathlib.Core.List.{List, [], ◌∷◌}
use pearl_infra.Prelude.Tests.{leb, ltb, if◌then◌else◌}
use pearl_infra.Prelude.Equality.{◌===◌, string_eq}

-- A template literal, as the list of its parts.
unfoldable pub concat : List String → String
concat [] = ""
concat (s ∷ ss) = s ++ concat ss

-- `parts.join(separator)`
unfoldable pub join : String → List String → String
join separator [] = ""
join separator (s ∷ []) = s
join separator (s ∷ t ∷ ss) = s ++ (separator ++ join separator (t ∷ ss))

abbrev char_or : String → ℕ → Char → Char
char_or String.[] i c = c
char_or (String.◌∷◌ d s) zero c = d
char_or (String.◌∷◌ d s) (suc i) c = char_or s i c

lower : Char → Char
lower c =
    if leb b'A' (code c) && leb (code c) b'Z'
    then char_or "abcdefghijklmnopqrstuvwxyz" (code c - b'A') c
    else c

-- `text.toLowerCase()`
unfoldable pub to_lower_case : String → String
unfolding lower
to_lower_case String.[] = ""
to_lower_case (String.◌∷◌ c s) = String.◌∷◌ (lower c) (to_lower_case s)

show_digits : ℕ → ℕ → String → String
show_digits zero n rest = rest
show_digits (suc fuel) n rest =
    let text = String.◌∷◌ (char_or "0123456789" (n % 10) "0") rest in
    let more = show_digits fuel (n / 10) text in if ltb n 10 then text else more

-- A number in a template literal. A number has no more digits than its value plus one.
unfoldable pub show : ℕ → String
unfolding show_digits
show n = show_digits (suc n) n ""

-- A string in a condition: `undefined` and the empty string are false.
abbrev pub truthy : Option String → Bool
truthy none = false
truthy (some s) = if s === "" then false else true

-- `a < b` on strings, the order of `sort()` without an argument.
abbrev pub text_lt : String → String → Bool
text_lt a b = is_lt (compare a b)

-- `text.slice(0, n)`
unfoldable pub slice_start : ℕ → String → String
slice_start zero s = ""
slice_start (suc n) String.[] = ""
slice_start (suc n) (String.◌∷◌ c s) = String.◌∷◌ c (slice_start n s)
