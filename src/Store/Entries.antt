-- ===== src/Store/Entries.antt =====
-- The abstract view of the store: its entries, oldest first, each with the number of its reference.
use zbplan.Prelude.{
  ℕ, ◌+◌, ◌≤◌, ◌<◌, ◌≡◌, refl, ap, ◌≢◌, inl, inr, false, Option, none, some, List, [], ◌∷◌, ◌++◌,
  map, arith, Bytes, beq, beq_iff, decimal-injective, ltb, if◌then◌else◌, Bool-cases, drop,
}
use zbplan.Store.{StoredToolOutput, ref_name}

abbrev pub Entries : Type 0
Entries = List (ℕ × StoredToolOutput)

unfoldable pub total : Entries → ℕ
total [] = 0
total ((_, stored) ∷ es) = stored.size + total es

unfoldable pub refs : Entries → List Bytes
refs = map (λ e. ref_name e.0)

unfoldable pub find : Bytes → Entries → Option StoredToolOutput
find ref [] = none
find ref ((n, stored) ∷ es) = if beq (ref_name n) ref then some stored else find ref es

-- The longest run of newest entries that takes at most `budget` bytes.
unfoldable pub trim : ℕ → Entries → Entries
trim budget [] = []
trim budget ((n, stored) ∷ es) =
    if ltb budget (stored.size + total es) then trim budget es else (n, stored) ∷ es

-- The numbers grow, from above `lo` up to `hi`.
abbrev pub Ordered : ℕ → Entries → ℕ → Type 0
Ordered lo [] hi = lo ≤ hi
Ordered lo ((n, stored) ∷ es) hi = (lo < n) × Ordered n es hi

pub ref_name-injective : (m n : ℕ) → ref_name m ≡ ref_name n → m ≡ n
unfolding ref_name
ref_name-injective m n e = decimal-injective m n (ap (drop 4) e)

ref_name-ne : (m n : ℕ) → m ≢ n → beq (ref_name m) (ref_name n) ≡ false
ref_name-ne m n h = elim (Bool-cases (beq (ref_name m) (ref_name n))) [
  | inl same ↦ absurd (h (ref_name-injective m n ((beq_iff (ref_name m) (ref_name n)).0 same)))
  | inr other ↦ other
]

pub total-append : (es fs : Entries) → total (es ++ fs) ≡ total es + total fs
unfolding total
total-append [] fs = omega arith
total-append ((n, stored) ∷ es) fs = omega (arith, total-append es fs)

pub refs-append : (es fs : Entries) → refs (es ++ fs) ≡ refs es ++ refs fs
unfolding refs
refs-append [] fs = refl
refs-append (e ∷ es) fs = ap (◌∷◌ (ref_name e.0)) (refs-append es fs)

pub Ordered-le : (lo hi : ℕ) (es : Entries) → Ordered lo es hi → lo ≤ hi
Ordered-le lo hi [] o = o
Ordered-le lo hi ((n, stored) ∷ es) (below, o) = omega (arith, Ordered-le n hi es o)

pub Ordered-weaken :
    (lo lo' hi : ℕ) (es : Entries) → lo ≤ lo' → Ordered lo' es hi → Ordered lo es hi
Ordered-weaken lo lo' hi [] h o = omega arith
Ordered-weaken lo lo' hi ((n, stored) ∷ es) h (below, o) = (omega arith, o)

pub Ordered-raise : (lo hi hi' : ℕ) (es : Entries) → hi ≤ hi' → Ordered lo es hi → Ordered lo es hi'
Ordered-raise lo hi hi' [] h o = omega arith
Ordered-raise lo hi hi' ((n, stored) ∷ es) h (below, o) = (below, Ordered-raise n hi hi' es h o)

pub Ordered-snoc :
    (lo hi n : ℕ) (es : Entries) (stored : StoredToolOutput)
    → Ordered lo es hi
    → hi < n
    → Ordered lo (es ++ (n, stored) ∷ []) n
Ordered-snoc lo hi n [] stored o h = (omega arith, omega arith)
Ordered-snoc lo hi n ((m, _) ∷ es) stored (below, o) h = (below, Ordered-snoc m hi n es stored o h)

-- A number below all others, or above them, names no entry.
pub find_below :
    (m lo hi : ℕ) (es : Entries) → m ≤ lo → Ordered lo es hi → find (ref_name m) es ≡ none
unfolding find
find_below m lo hi [] h o = refl
find_below m lo hi ((n, stored) ∷ es) h (below, o) =
    rw (ref_name-ne n m (omega arith)) (find_below m n hi es (omega arith) o)

pub find_above :
    (m lo hi : ℕ) (es : Entries) → hi < m → Ordered lo es hi → find (ref_name m) es ≡ none
unfolding find
find_above m lo hi [] h o = refl
find_above m lo hi ((n, stored) ∷ es) h (below, o) =
    let n_le_hi = Ordered-le n hi es o in
    rw (ref_name-ne n m (omega arith)) (find_above m n hi es h o)

pub find_snoc :
    (r : Bytes) (n : ℕ) (stored : StoredToolOutput) (es : Entries)
    → find (ref_name n) es ≡ none
    → find r (es ++ (n, stored) ∷ []) ≡ (if beq (ref_name n) r then some stored else find r es)
unfolding find
find_snoc r n stored [] fresh = refl
find_snoc r n stored ((m, other) ∷ es) fresh = ground (
  arith,
  beq_iff (ref_name m) r,
  beq_iff (ref_name n) r,
  beq_iff (ref_name m) (ref_name n),
  find_snoc r n stored es,
)
