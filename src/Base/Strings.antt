-- ===== src/Base/Strings.antt =====
-- strings.TrimSpace, ToUpper, ToLower, Trim and Split of Go's library, over code points.
use payments_engine.Base.Tests.{leb, nat_beq, if◌then◌else◌}
use payments_engine.Base.Equality.{Text}
use Prim.Native.Nat.{ℕ, ◌+◌, ◌-◌}
use mathlib.Core.Bool.{Bool, ◌&&◌, ◌||◌}
use mathlib.Core.List.{List, [], ◌∷◌, reverse, map}

-- unicode.IsSpace
abbrev pub is_space : ℕ → Bool
is_space c =
    (leb 9 c && leb c 13)
    || nat_beq c 32
    || nat_beq c 0x85
    || nat_beq c 0xA0
    || nat_beq c 0x1680
    || (leb 0x2000 c && leb c 0x200a)
    || nat_beq c 0x2028
    || nat_beq c 0x2029
    || nat_beq c 0x202f
    || nat_beq c 0x205f
    || nat_beq c 0x3000

unfoldable pub trim_left : Text → Text
trim_left [] = []
trim_left (c ∷ s) = if is_space c then trim_left s else c ∷ s

unfoldable pub trim_space : Text → Text
unfolding trim_left
trim_space s = reverse (trim_left (reverse (trim_left s)))

-- on ASCII letters; other code points are left as they are
abbrev pub upper_rune : ℕ → ℕ
upper_rune c = if leb 97 c && leb c 122 then c - 32 else c

unfoldable pub to_upper : Text → Text
to_upper s = map upper_rune s

-- on ASCII letters
abbrev pub lower_rune : ℕ → ℕ
lower_rune c = if leb 65 c && leb c 90 then c + 32 else c

unfoldable pub to_lower : Text → Text
to_lower s = map lower_rune s

unfoldable pub drop_char : ℕ → Text → Text
drop_char c [] = []
drop_char c (d ∷ s) = if nat_beq d c then drop_char c s else d ∷ s

-- strings.Trim with a cutset of one character
unfoldable pub trim_char : ℕ → Text → Text
unfolding drop_char
trim_char c s = reverse (drop_char c (reverse (drop_char c s)))

abbrev add_first : ℕ → List Text → List Text
add_first c [] = (c ∷ []) ∷ []
add_first c (part ∷ parts) = (c ∷ part) ∷ parts

-- strings.Split with a separator of one character: there is always a part
unfoldable pub split : ℕ → Text → List Text
split sep [] = [] ∷ []
split sep (c ∷ s) = let rest = split sep s in if nat_beq c sep then [] ∷ rest else add_first c rest
