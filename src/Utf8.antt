-- ===== src/Utf8.antt =====
-- The parts of Go's `unicode/utf8` that the program uses, over byte values below 256.
use zbplan.Prelude.{
  ℕ, suc, ◌≤◌, Bool, true, not, ◌&&◌, ◌||◌, [], ◌∷◌, none, some, arith, Bytes, get_elem?, length,
  ltb, leb, ◌==◌, if◌then◌else◌,
}

-- `utf8.RuneStart`: all but the continuation bytes 0x80 … 0xBF.
unfoldable pub rune_start : ℕ → Bool
rune_start c = ltb c 0x80 || leb 0xC0 c

-- `RuneStart(value[i])`; the program asks only inside the text. Its end counts as a boundary.
unfoldable pub rune_start_at : Bytes → ℕ → Bool
rune_start_at v i = elim (get_elem? v i) [ none ↦ true | some c ↦ rune_start c ]

in_range : ℕ → ℕ → ℕ → Bool
in_range lo hi c = leb lo c && leb c hi

continues : ℕ → Bool
continues c = leb 0x80 c && leb c 0xBF

-- The range of the second byte depends on the first (`acceptRanges` of the library).
second_low : ℕ → ℕ
second_low c = if c == 0xE0 then 0xA0 else if c == 0xF0 then 0x90 else 0x80

second_high : ℕ → ℕ
second_high c = if c == 0xED then 0x9F else if c == 0xF4 then 0x8F else 0xBF

-- The size that the first byte announces; 1 also for a byte that begins no rune.
announced : ℕ → ℕ
announced c =
    if in_range 0xC2 0xDF c
    then 2
    else if in_range 0xE0 0xEF c
    then 3
    else if in_range 0xF0 0xF4 c
    then 4
    else 1

-- The size of a rune whose first byte is `c` and announces `n` bytes, before the text `s`.
rune_size_of : ℕ → ℕ → Bytes → ℕ
rune_size_of n c [] = 1
rune_size_of n c (a ∷ []) = if n == 2 && in_range (second_low c) (second_high c) a then 2 else 1
rune_size_of n c (a ∷ b ∷ []) =
    if not (in_range (second_low c) (second_high c) a)
    then 1
    else if n == 2
    then 2
    else if n == 3 && continues b
    then 3
    else 1
rune_size_of n c (a ∷ b ∷ d ∷ _) =
    if not (in_range (second_low c) (second_high c) a)
    then 1
    else if n == 2
    then 2
    else if not (continues b)
    then 1
    else if n == 3
    then 3
    else if n == 4 && continues d
    then 4
    else 1

-- The size that `utf8.DecodeRuneInString` returns: 0 at the end, 1 for a malformed rune.
unfoldable pub rune_size : Bytes → ℕ
unfolding rune_size_of announced second_low second_high in_range continues
rune_size [] = 0
rune_size (c ∷ s) = rune_size_of (announced c) c s

rune_size_of_bounds :
    (n c : ℕ) (s : Bytes) → (1 ≤ rune_size_of n c s) × (rune_size_of n c s ≤ suc (length s))
unfolding rune_size_of
rune_size_of_bounds n c [] = omega arith
rune_size_of_bounds n c (a ∷ []) = ground arith
rune_size_of_bounds n c (a ∷ b ∷ []) = ground arith
rune_size_of_bounds n c (a ∷ b ∷ d ∷ s) = ground arith

-- A rune takes at least a byte of a text that is not empty, and no byte behind its end.
pub rune_size_bounds :
    (c : ℕ) (s : Bytes) → (1 ≤ rune_size (c ∷ s)) × (rune_size (c ∷ s) ≤ length (c ∷ s))
unfolding rune_size
rune_size_bounds c s = rune_size_of_bounds (announced c) c s
