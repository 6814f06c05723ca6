-- ===== src/Common/Hex.antt =====
-- Hexadecimal texts, as Python reads them.
use Prim.Native.Nat.{ℕ, ◌+◌, ◌*◌, ◌-◌}
use Prim.Native.Char.{code}
use Prim.Native.String.{String}
use mathlib.Core.Bool.{Bool, ◌&&◌, ◌||◌}
use mathlib.Core.Option.{Option, none, some}
use mathlib.Core.List.{List, [], ◌∷◌}
use validatornode.Common.Tests.{leb, ◌==◌, if◌then◌else◌}

-- The code points of a text.
abbrev pub codes : String → List ℕ
codes String.[] = []
codes (String.◌∷◌ c s) = code c ∷ codes s

abbrev is_between : ℕ → ℕ → ℕ → Bool
is_between low high c = leb low c && leb c high

-- `[a-fA-F0-9]`
abbrev pub is_hex_digit : ℕ → Bool
is_hex_digit c = is_between b'0' b'9' c || (is_between b'a' b'f' c || is_between b'A' b'F' c)

abbrev hex_digit_value : ℕ → ℕ
hex_digit_value c =
    if is_between b'0' b'9' c
    then c - b'0'
    else if is_between b'a' b'f' c
    then c - b'a' + 10
    else c - b'A' + 10

abbrev digits_value : List ℕ → ℕ → Option ℕ
digits_value [] acc = some acc
digits_value (c ∷ cs) acc =
    let rest = digits_value cs (acc * 16 + hex_digit_value c) in
    if is_hex_digit c then rest else none

abbrev nonempty_value : List ℕ → Option ℕ
nonempty_value [] = none
nonempty_value (c ∷ cs) = digits_value (c ∷ cs) 0

-- A prefix "0x" or "0X" is taken off.
abbrev without_prefix : List ℕ → List ℕ
without_prefix (c ∷ d ∷ cs) = if c == b'0' && (d == b'x' || d == b'X') then cs else c ∷ d ∷ cs
without_prefix cs = cs

-- `int(text, 16)`, where `none` is a `ValueError`. Texts with spaces, a sign or underscores, which
-- `int` reads too, are none here: a blockchain address has none of these.
unfoldable pub hex_value : String → Option ℕ
hex_value text = nonempty_value (without_prefix (codes text))
