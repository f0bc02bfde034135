-- ===== src/Http/Strings.antt =====
-- The functions of Go's strings and strconv packages that internal/httpapi uses, on bytes.
use tg_bridge.Prelude.{
  ℕ, zero, suc, ◌+◌, ◌-◌, ◌*◌, ◌^◌, Bool, true, false, ◌&&◌, ◌||◌, Option, none, some, [], ◌∷◌, Str,
  ltb, leb, ◌==◌, if◌then◌else◌,
}
use tg_bridge.Prelude.Int.{ℤ, pos, negsuc}

-- `strings.HasPrefix`, with what follows the prefix.
unfoldable pub cut_prefix : Str → Str → Option Str
cut_prefix [] s = some s
cut_prefix (p ∷ ps) [] = none
cut_prefix (p ∷ ps) (b ∷ s) = let rest = cut_prefix ps s in if p == b then rest else none

-- The characters of `unicode.IsSpace`, by their one, two or three bytes.
unfoldable is_space : ℕ → Bool
is_space a = (a == 32) || (leb 9 a && leb a 13)

unfoldable is_space₂ : ℕ → ℕ → Bool
is_space₂ a b = (a == 194) && ((b == 133) || (b == 160))

unfoldable is_space₃ : ℕ → ℕ → ℕ → Bool
is_space₃ a b c =
    ((a == 225) && ((b == 154) && (c == 128)))
    || (((a == 226)
          && (b == 128)
          && ((leb 128 c && leb c 138) || (c == 168) || (c == 169) || (c == 175)))
        || (((a == 226) && (b == 129) && (c == 159)) || ((a == 227) && (b == 128) && (c == 128))))

-- The bytes of the space that a string starts with, or ends with when it is reversed.
unfoldable pub space_width : Bool → Str → ℕ
unfolding is_space is_space₂ is_space₃
space_width back [] = 0
space_width back (a ∷ []) = if is_space a then 1 else 0
space_width back (a ∷ b ∷ []) =
    if is_space a then 1 else if (if back then is_space₂ b a else is_space₂ a b) then 2 else 0
space_width back (a ∷ b ∷ c ∷ s) =
    if is_space a
    then 1
    else if (if back then is_space₂ b a else is_space₂ a b)
    then 2
    else if (if back then is_space₃ c b a else is_space₃ a b c)
    then 3
    else 0

-- Drops the first bytes, and then all spaces up to the first other character.
unfoldable pub trim : Bool → ℕ → Str → Str
trim back n [] = []
trim back (suc n) (a ∷ s) = trim back n s
trim back zero (a ∷ s) = elim (space_width back (a ∷ s)) [ zero ↦ a ∷ s | suc w ↦ trim back w s ]

unfoldable pub reverse_onto : Str → Str → Str
reverse_onto acc [] = acc
reverse_onto acc (a ∷ s) = reverse_onto (a ∷ acc) s

unfoldable pub trim_space : Str → Str
unfolding trim reverse_onto
trim_space s = let left = trim false 0 s in reverse_onto [] (trim true 0 (reverse_onto [] left))

-- The result of `strconv.ParseInt(s, 10, 64)`; a number out of range comes with the nearest bound.
pub data Parsed (A : Type 0) : Type 0 where
  syntax : Parsed A
  range : A → Parsed A
  value : A → Parsed A

-- `strconv.ParseUint` from the digits read so far.
unfoldable pub parse_uint : ℕ → Str → Parsed ℕ
parse_uint n [] = value n
parse_uint n (b ∷ s) =
    let n' = n * 10 + (b - 48) in
    let rest = parse_uint n' s in
    if leb 48 b && leb b 57
    then (if ltb (2 ^ 64 - 1) n' then range (2 ^ 64 - 1) else rest)
    else syntax

unfoldable pub digits : Str → Parsed ℕ
digits [] = syntax
digits (b ∷ s) = parse_uint 0 (b ∷ s)

unfoldable pub positive : Parsed ℕ → Parsed ℤ
positive syntax = syntax
positive (range n) = range (pos (2 ^ 63 - 1))
positive (value n) = if ltb n (2 ^ 63) then value (pos n) else range (pos (2 ^ 63 - 1))

unfoldable pub negative : Parsed ℕ → Parsed ℤ
negative syntax = syntax
negative (range n) = range (negsuc (2 ^ 63 - 1))
negative (value zero) = value (pos 0)
negative (value (suc n)) = if ltb n (2 ^ 63) then value (negsuc n) else range (negsuc (2 ^ 63 - 1))

unfoldable pub parse_int : Str → Parsed ℤ
parse_int [] = syntax
parse_int (b ∷ s) =
    if b == 43
    then positive (digits s)
    else if b == 45
    then negative (digits s)
    else positive (digits (b ∷ s))

-- The number that `strconv.Atoi` returns beside its error, which the handlers ignore.
unfoldable pub atoi : Str → ℤ
atoi s = elim (parse_int s) [ syntax ↦ pos 0 | range z ↦ z | value z ↦ z ]
