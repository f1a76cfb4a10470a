-- ===== src/Base/Text.antt =====
-- What the program uses of the package strings, on bytes. Spaces and letters are those of ASCII:
-- the bytes of other characters are never trimmed and have no lower case here.
pub mod Trim
pub mod Split
use Prim.Native.Nat.{ℕ, ◌+◌, ◌≤◌}
use mathlib.Core.Bool.{Bool, true, false, ◌&&◌, ◌||◌, not}
use mathlib.Core.List.{List, [], ◌∷◌, ◌++◌, map}
use rout_wire.Base.Tests.{leb, ◌==◌, if◌then◌else◌}
use rout_wire.Base.Lists.{select}
use rout_wire.Base.Bytes.{Bytes, has_prefix}

-- tab, newline, vertical tab, form feed, carriage return and blank
abbrev pub is_space : ℕ → Bool
is_space c = leb 9 c && leb c 13 || c == 32

abbrev pub lower : ℕ → ℕ
lower c = if leb b'A' c && leb c b'Z' then c + 32 else c

-- strings.ToLower
abbrev pub to_lower : Bytes → Bytes
to_lower = map lower

unfoldable pub trim_left : (ℕ → Bool) → Bytes → Bytes
trim_left p [] = []
trim_left p (c ∷ s) = let rest = trim_left p s in if p c then rest else c ∷ s

attach : (ℕ → Bool) → ℕ → Bytes → Bytes
attach p c [] = if p c then [] else c ∷ []
attach p c (d ∷ s) = c ∷ d ∷ s

unfoldable pub trim_right : (ℕ → Bool) → Bytes → Bytes
unfolding attach
trim_right p [] = []
trim_right p (c ∷ s) = attach p c (trim_right p s)

-- strings.Trim and TrimSpace
unfoldable pub trim : (ℕ → Bool) → Bytes → Bytes
unfolding trim_left trim_right
trim p s = trim_right p (trim_left p s)

unfoldable pub trim_space : Bytes → Bytes
unfolding trim
trim_space = trim is_space

glue : ℕ → List Bytes → List Bytes
glue c [] = (c ∷ []) ∷ []
glue c (piece ∷ rest) = (c ∷ piece) ∷ rest

-- The pieces between the bytes that pass the test.
unfoldable pub split_by : (ℕ → Bool) → Bytes → List Bytes
unfolding glue
split_by p [] = [] ∷ []
split_by p (c ∷ s) = let rest = split_by p s in if p c then [] ∷ rest else glue c rest

-- strings.Split at one byte
unfoldable pub split : ℕ → Bytes → List Bytes
unfolding split_by
split sep = split_by (λ c. c == sep)

abbrev pub is_empty : Bytes → Bool
is_empty [] = true
is_empty (c ∷ s) = false

-- strings.Fields
unfoldable pub fields : Bytes → List Bytes
unfolding split_by
fields s = select (λ f. not (is_empty f)) (split_by is_space s)

-- strings.Join
unfoldable pub join : Bytes → List Bytes → Bytes
join sep [] = []
join sep (x ∷ []) = x
join sep (x ∷ y ∷ rest) = x ++ (sep ++ join sep (y ∷ rest))

-- strings.Contains(s, sub) is `contains sub s`.
unfoldable pub contains : Bytes → Bytes → Bool
contains sub [] = has_prefix sub []
contains sub (c ∷ s) = has_prefix sub (c ∷ s) || contains sub s
