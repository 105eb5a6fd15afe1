-- ===== src/Store/Pushed.antt =====
-- What is found in the window after an entry was pushed.
use zbplan.Prelude.{
  ℕ, ◌-◌, ◌<◌, ◌≡◌, refl, ap, sym, ◌∙◌, ◌≢◌, false, some, [], ◌∷◌, arith, Bytes, beq_iff, beq_refl,
  ltb, Bool-cases, inl, inr,
}
use zbplan.Store.{StoredToolOutput, ref_name}
use zbplan.Store.Entries.{Entries, find, trim, Ordered, find_below, find_snoc, find_above}
use zbplan.Store.Save.{push, trim-Ordered}

-- Trimming keeps every entry that it leaves under its own reference.
pub find-trim :
    (budget lo hi : ℕ) (es : Entries) (ref : Bytes) (stored : StoredToolOutput)
    → Ordered lo es hi
    → find ref (trim budget es) ≡ some stored
    → find ref es ≡ some stored
unfolding trim find
find-trim budget lo hi [] ref stored o e = e
find-trim budget lo hi ((n, first) ∷ es) ref stored (below, o) e = ground (
  arith,
  find-trim budget n hi es ref stored o,
  find_below n n hi es (omega arith) o,
  beq_iff (ref_name n) ref,
)

pub find-push_new :
    (cap hi n : ℕ) (es : Entries) (stored : StoredToolOutput)
    → Ordered 0 es hi
    → hi < n
    → ltb cap stored.size ≡ false
    → find (ref_name n) (push cap es n stored) ≡ some stored
unfolding push
find-push_new cap hi n es stored o above fits =
    let es' = trim (cap - stored.size) es in
    let fresh = find_above n 0 hi es' above (trim-Ordered (cap - stored.size) 0 hi es o) in
    rw fits (find_snoc (ref_name n) n stored es' fresh ∙ ground (arith, beq_refl (ref_name n)))

pub find-push_old :
    (cap hi n : ℕ) (es : Entries) (stored found : StoredToolOutput) (ref : Bytes)
    → Ordered 0 es hi
    → hi < n
    → (ltb cap stored.size ≡ false → ref ≢ ref_name n)
    → find ref (push cap es n stored) ≡ some found
    → find ref es ≡ some found
unfolding push
find-push_old cap hi n es stored found ref o above other e =
    let es' = trim (cap - stored.size) es in
    let fresh = find_above n 0 hi es' above (trim-Ordered (cap - stored.size) 0 hi es o) in
    elim (Bool-cases (ltb cap stored.size)) [
      | inl big ↦
          let same : push cap es n stored ≡ es = unfold push in rw big refl in
          sym (ap (find ref) same) ∙ e
      | inr fits ↦
          let apart = other fits in
          ground (
            arith,
            find_snoc ref n stored es' fresh,
            beq_iff (ref_name n) ref,
            find-trim (cap - stored.size) 0 hi es ref found o,
          )
    ]
