-- ===== src/Strings.antt =====
-- The parts of Go's `strings` and `slices` packages that the program uses, over byte strings.
pub mod Split
pub mod Join
use zbplan.Prelude.{
  ℕ, ◌+◌, ◌-◌, ◌≤◌, Bool, true, false, ◌&&◌, ◌||◌, Option, none, some, List, [], ◌∷◌, ◌++◌, ◌≡◌,
  refl, arith, ap, Bytes, beq, beq_refl, length, take, drop, last, leb, ◌==◌, if◌then◌else◌,
  length-append,
}

-- `strings.HasPrefix`
unfoldable pub has_prefix : Bytes → Bytes → Bool
has_prefix s [] = true
has_prefix [] (c ∷ prefix) = false
has_prefix (x ∷ s) (c ∷ prefix) = (x == c) && has_prefix s prefix

-- `strings.HasSuffix`
unfoldable pub has_suffix : Bytes → Bytes → Bool
has_suffix s suffix = beq (last (length suffix) s) suffix

-- `strings.CutPrefix`: what follows the prefix, where it is there.
unfoldable pub cut_prefix : Bytes → Bytes → Option Bytes
cut_prefix s prefix = if has_prefix s prefix then some (drop (length prefix) s) else none

-- `strings.TrimPrefix`
unfoldable pub trim_prefix : Bytes → Bytes → Bytes
trim_prefix s prefix = if has_prefix s prefix then drop (length prefix) s else s

-- `strings.TrimSuffix`
unfoldable pub trim_suffix : Bytes → Bytes → Bytes
trim_suffix s suffix = if has_suffix s suffix then take (length s - length suffix) s else s

-- `strings.IndexByte(s, c) >= 0`
unfoldable pub contains_byte : ℕ → Bytes → Bool
contains_byte c [] = false
contains_byte c (x ∷ s) = (x == c) || contains_byte c s

-- `strings.ContainsAny`, for ASCII characters.
unfoldable pub contains_any : Bytes → Bytes → Bool
contains_any [] chars = false
contains_any (x ∷ s) chars = contains_byte x chars || contains_any s chars

-- `slices.Contains`
unfoldable pub contains : List Bytes → Bytes → Bool
contains [] s = false
contains (x ∷ xs) s = beq x s || contains xs s

pub has_prefix-append : (p s : Bytes) → has_prefix (p ++ s) p ≡ true
unfolding has_prefix
has_prefix-append [] s = refl
has_prefix-append (c ∷ p) s = ground (arith, has_prefix-append p s)

-- `strings.Contains`
unfoldable pub contains_text : Bytes → Bytes → Bool
contains_text [] sub = has_prefix [] sub
contains_text (c ∷ s) sub = has_prefix (c ∷ s) sub || contains_text s sub
