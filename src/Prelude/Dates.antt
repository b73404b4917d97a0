-- ===== src/Prelude/Dates.antt =====
-- Timestamps. The program keeps ISO strings and reads them by `new Date(text).getTime()`; the
-- model keeps what that call returns, with `none` for NaN, on which every comparison is false.
use Prim.Native.Nat.{ℕ}
use mathlib.Core.Bool.{Bool, false}
use mathlib.Core.Option.{Option, none, some}
use pearl_infra.Prelude.Tests.{ltb, leb}

abbrev pub Timestamp : Type 0
Timestamp = Option ℕ

-- `new Date(a).getTime() < new Date(b).getTime()`
abbrev pub earlier : Timestamp → Timestamp → Bool
earlier (some a) (some b) = ltb a b
earlier (some a) none = false
earlier none b = false

-- `new Date(a).getTime() <= new Date(b).getTime()`
abbrev pub not_later : Timestamp → Timestamp → Bool
not_later (some a) (some b) = leb a b
not_later (some a) none = false
not_later none b = false
