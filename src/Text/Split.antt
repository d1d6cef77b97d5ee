-- ===== src/Text/Split.antt =====
-- strings.Split with a separator of one byte, and strings.TrimSpace on ASCII.
use elinproxy.Prelude.{
  ℕ, ◌≡◌, refl, Bool, true, false, ◌||◌, List, [], ◌∷◌, ◌++◌, if◌then◌else◌, ◌==◌, arith, has, leb,
  ◌&&◌,
}
use elinproxy.Text.{Bytes}

-- `c` in front of the first piece
cons_first : ℕ → List Bytes → List Bytes
cons_first c [] = (c ∷ []) ∷ []
cons_first c (p ∷ ps) = (c ∷ p) ∷ ps

unfoldable pub split : ℕ → Bytes → List Bytes
unfolding cons_first
split sep [] = [] ∷ []
split sep (c ∷ s) = let rest = split sep s in if c == sep then [] ∷ rest else cons_first c rest

-- '\\t', '\\n', '\\v', '\\f', '\\r' and ' '
abbrev pub is_space : ℕ → Bool
is_space c = (leb 9 c && leb c 13) || c == 32

unfoldable pub trim_left : Bytes → Bytes
trim_left [] = []
trim_left (c ∷ s) = let rest = trim_left s in if is_space c then rest else c ∷ s

all_space : Bytes → Bool
all_space [] = true
all_space (c ∷ s) = is_space c && all_space s

unfoldable pub trim_right : Bytes → Bytes
unfolding all_space
trim_right [] = []
trim_right (c ∷ s) = let rest = trim_right s in if all_space (c ∷ s) then [] else c ∷ rest

unfoldable pub trim_space : Bytes → Bytes
unfolding trim_left trim_right
trim_space s = trim_right (trim_left s)

-- A text without the separator is one piece.
pub split_one : (sep : ℕ) (s : Bytes) → has sep s ≡ false → split sep s ≡ s ∷ []
unfolding split cons_first
split_one sep [] h = refl
split_one sep (c ∷ s) h = ground (arith, split_one sep s)

-- The first separator ends the first piece.
pub split_two :
    (sep : ℕ) (s t : Bytes) → has sep s ≡ false → split sep (s ++ sep ∷ t) ≡ s ∷ split sep t
unfolding split cons_first
split_two sep [] t h = ground arith
split_two sep (c ∷ s) t h = ground (arith, split_two sep s t)

abbrev pub NoSpace : Bytes → Type 0
NoSpace [] = Unit {0}
NoSpace (c ∷ s) = (is_space c ≡ false) × NoSpace s

trim_right_same : (s : Bytes) → NoSpace s → trim_right s ≡ s
unfolding trim_right all_space
trim_right_same [] h = refl
trim_right_same (c ∷ s) h = ground (arith, trim_right_same s h.1)

pub trim_space_same : (s : Bytes) → NoSpace s → trim_space s ≡ s
unfolding trim_space trim_left
trim_space_same [] h = refl
trim_space_same (c ∷ s) h = ground (arith, trim_right_same (c ∷ s) h)
