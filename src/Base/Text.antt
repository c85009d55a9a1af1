-- ===== src/Base/Text.antt =====
-- Texts as their code points, and the tests of Rust's `str` that the sources call.
use Prim.Native.Nat.{ℕ, ◌+◌}
use Prim.Native.Char.{code}
use Prim.Native.String.{String, compare as compare_str}
use Prim.Native.Nat.{Ordering}
use mathlib.Core.Bool.{Bool, true, false, ◌&&◌, ◌||◌}
use mathlib.Core.List.{List, [], ◌∷◌}
use symbiotic_foundation.Base.Tests.{ltb, leb, nat_beq, if◌then◌else◌}
use symbiotic_foundation.Base.Lists.{all}

abbrev pub codes : String → List ℕ
codes String.[] = []
codes (String.◌∷◌ c s) = code c ∷ codes s

-- How many bytes a code point takes in UTF-8.
abbrev pub utf8_width : ℕ → ℕ
utf8_width c = if ltb c 0x80 then 1 else if ltb c 0x800 then 2 else if ltb c 0x10000 then 3 else 4

-- `str::len`
unfoldable pub byte_count : List ℕ → ℕ
byte_count [] = 0
byte_count (c ∷ cs) = utf8_width c + byte_count cs

-- The Unicode White_Space characters, which `str::trim` strips.
unfoldable pub is_white : ℕ → Bool
is_white c =
    (leb 9 c && leb c 13)
    || nat_beq c 0x20
    || nat_beq c 0x85
    || nat_beq c 0xA0
    || nat_beq c 0x1680
    || (leb 0x2000 c && leb c 0x200A)
    || nat_beq c 0x2028
    || nat_beq c 0x2029
    || nat_beq c 0x202F
    || nat_beq c 0x205F
    || nat_beq c 0x3000

-- `s.trim().is_empty()`
unfoldable pub is_blank : String → Bool
unfolding is_white
is_blank s = all is_white (codes s)

-- `s < t` by the bytes of their UTF-8, which is the order of the code points.
unfoldable pub str_lt : String → String → Bool
str_lt s t = elim (compare_str s t) [ Ordering.lt ↦ true | _ ↦ false ]
