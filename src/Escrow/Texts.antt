-- ===== src/Escrow/Texts.antt =====
-- packages/pearl-escrow/src: the tests on texts that funding.ts, unsigned-tx.ts and broadcast.ts
-- each have a copy of.
use Prim.Native.Char.{code}
use pearl_infra.Prelude.{
  ℕ, ◌%◌, String, some, none, Option, List, [], ◌∷◌, Bool, false, ◌&&◌, ◌||◌, ◌==◌, ◌===◌,
  string_eq, leb, if◌then◌else◌,
}
use pearl_infra.Prelude.Lists.{length, every}
use pearl_infra.Prelude.Digits.{is_digit}
use pearl_infra.Prelude.BigInts.{codes}
use pearl_infra.Prelude.Text.{to_lower_case}

-- `[0-9a-fA-F]`
abbrev is_hex : ℕ → Bool
is_hex c = is_digit c || ((leb b'a' c && leb c b'f') || (leb b'A' c && leb c b'F'))

-- `/^[0-9a-fA-F]{64}$/`
unfoldable pub is_txid : String → Bool
is_txid text = (length (codes text) == 64) && every is_hex (codes text)

-- `/^[1-9]\d*$/`
unfoldable pub is_positive_integer : String → Bool
is_positive_integer String.[] = false
is_positive_integer (String.◌∷◌ c s) =
    (leb b'1' (code c) && leb (code c) b'9') && every is_digit (codes s)

-- `/^(0|[1-9]\d*)$/`
unfoldable pub is_non_negative_integer : String → Bool
is_non_negative_integer text = (text === "0") || is_positive_integer text

unfoldable pub without_prefix : String → String
without_prefix String.[] = ""
without_prefix (String.◌∷◌ c String.[]) = String.◌∷◌ c ""
without_prefix (String.◌∷◌ c (String.◌∷◌ d s)) =
    if (code c == b'0') && (code d == b'x') then s else String.◌∷◌ c (String.◌∷◌ d s)

unfoldable pub normalize_hex : String → Option String
normalize_hex value =
    let normalized = without_prefix value in
    if every is_hex (codes normalized) && (length (codes normalized) % 2 == 0)
    then some (to_lower_case normalized)
    else none

-- `text.split(':')`: the first part and the others.
unfoldable pub split_colon : String → String × List String
split_colon String.[] = ("", [])
split_colon (String.◌∷◌ c s) =
    let rest = split_colon s in
    if code c == b':' then ("", rest.0 ∷ rest.1) else (String.◌∷◌ c rest.0, rest.1)
