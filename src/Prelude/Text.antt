-- ===== src/Prelude/Text.antt =====
-- The methods of strings that the program calls. A character is a code point; letter case is that
-- of ASCII, which is all that occurs in the names and tags compared here.
use Prim.Native.Nat.{ℕ}
use Prim.Native.Char.{Char, code}
use Prim.Native.String
use Prim.Native.String.{String, [], ◌∷◌}
use mathlib.Core.Bool.{Bool, true, ◌||◌, ◌&&◌}
use mathlib.Core.List.{List, [], ◌∷◌}
use text.Mathlib.Text.{starts_with}
use caas_lite.Prelude.Tests.{if◌then◌else◌, ◌==◌, leb}

-- The character that stands in the second text where `c` stands in the first.
translate : String → String → Char → Char
translate [] _ c = c
translate (a ∷ from) [] c = c
translate (a ∷ from) (b ∷ to) c = if code a == code c then b else translate from to c

map_chars : (Char → Char) → String → String
map_chars f [] = []
map_chars f (c ∷ s) = f c ∷ map_chars f s

unfoldable pub to_upper : String → String
unfolding translate map_chars
to_upper = map_chars (translate "abcdefghijklmnopqrstuvwxyz" "ABCDEFGHIJKLMNOPQRSTUVWXYZ")

unfoldable pub to_lower : String → String
unfolding translate map_chars
to_lower = map_chars (translate "ABCDEFGHIJKLMNOPQRSTUVWXYZ" "abcdefghijklmnopqrstuvwxyz")

-- `s.includes(t)`
unfoldable pub includes : String → String → Bool
includes [] t = starts_with [] t
includes (c ∷ s) t = starts_with (c ∷ s) t || includes s t

-- White space and line ends, as `trim` takes them.
pub is_space : ℕ → Bool
is_space n =
    (leb 9 n && leb n 13)
    || n == 32
    || n == 0xa0
    || n == 0x1680
    || (leb 0x2000 n && leb n 0x200a)
    || n == 0x2028
    || n == 0x2029
    || n == 0x202f
    || n == 0x205f
    || n == 0x3000
    || n == 0xfeff

-- `s.trim() === ''`
unfoldable pub is_blank : String → Bool
unfolding is_space
is_blank [] = true
is_blank (c ∷ s) = is_space (code c) && is_blank s

trim_start : String → String
trim_start [] = []
trim_start (c ∷ s) = let rest = trim_start s in if is_space (code c) then rest else c ∷ s

trim_end : String → String
trim_end [] = []
trim_end (c ∷ s) = let rest = trim_end s in if is_blank (c ∷ s) then [] else c ∷ rest

unfoldable pub trim : String → String
unfolding trim_start trim_end is_space is_blank
trim s = trim_end (trim_start s)

-- `s.split(d)[0]`, for a separator of one character given by its code.
unfoldable pub before : ℕ → String → String
before d [] = []
before d (c ∷ s) = let rest = before d s in if code c == d then [] else c ∷ rest

-- `s.split(d)`, for a separator of one character given by its code.
split_from : ℕ → String → String → List String
split_from d cur [] = cur ∷ []
split_from d cur (c ∷ s) =
    let closed = split_from d [] s in
    let longer = split_from d (String.◌++◌ cur (c ∷ [])) s in
    if code c == d then cur ∷ closed else longer

unfoldable pub split : ℕ → String → List String
unfolding split_from
split d s = split_from d [] s
