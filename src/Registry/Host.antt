-- ===== src/Registry/Host.antt =====
-- A host that the allowlist takes holds only letters, digits, dots, dashes and colons: no wildcard and
-- no path can pass into a BuildKit selector.
use zbplan.Prelude.{
  ℕ, Bool, true, false, ◌&&◌, ◌||◌, Option, none, some, List, [], ◌∷◌, ◌++◌, ◌≡◌, refl, sym, ap,
  ◌∙◌, Bytes, arith, ◌==◌, Bool-cases, inl, inr, ==_iff,
}
use mathlib.Core.Path.{subst}
use zbplan.Strings.Split.{split, join, join-split}
use zbplan.Registry.{
  is_alnum, all_label_bytes, is_label, all_labels, all_digits, cut, is_port, matches_host,
}

unfoldable pub is_host_byte : ℕ → Bool
is_host_byte c = is_alnum c || (c == b'-' || (c == b'.' || c == b':'))

unfoldable pub all_host_bytes : Bytes → Bool
unfolding is_host_byte is_alnum
all_host_bytes [] = true
all_host_bytes (c ∷ s) = is_host_byte c && all_host_bytes s

all_host_bytes-append :
    (s t : Bytes)
    → all_host_bytes s ≡ true
    → all_host_bytes t ≡ true
    → all_host_bytes (s ++ t) ≡ true
unfolding all_host_bytes
all_host_bytes-append [] t h k = k
all_host_bytes-append (c ∷ s) t h k = ground (arith, all_host_bytes-append s t)

all_label_bytes-host : (s : Bytes) → all_label_bytes s ≡ true → all_host_bytes s ≡ true
unfolding all_label_bytes all_host_bytes is_host_byte
all_label_bytes-host [] h = refl
all_label_bytes-host (c ∷ s) h = ground (arith, all_label_bytes-host s)

all_digits-host : (s : Bytes) → all_digits s ≡ true → all_host_bytes s ≡ true
unfolding all_digits all_host_bytes is_host_byte is_alnum
all_digits-host [] h = refl
all_digits-host (c ∷ s) h = ground (arith, all_digits-host s)

is_label-host : (s : Bytes) → is_label s ≡ true → all_host_bytes s ≡ true
unfolding is_label all_host_bytes is_host_byte
is_label-host [] h = absurd (cc)
is_label-host (c ∷ s) h = ground (arith, all_label_bytes-host s)

dot-host : (s : Bytes) → all_host_bytes s ≡ true → all_host_bytes (b'.' ∷ s) ≡ true
unfolding all_host_bytes is_host_byte is_alnum
dot-host s h = h

join-host :
    (labels : List Bytes) → all_labels labels ≡ true → all_host_bytes (join b'.' labels) ≡ true
unfolding all_labels join
join-host [] h = unfold all_host_bytes in refl
join-host (label ∷ []) h = is_label-host label (ground arith)
join-host (label ∷ label' ∷ labels) h =
    let rest = join-host (label' ∷ labels) (ground arith) in
    all_host_bytes-append label _ (is_label-host label (ground arith)) (dot-host _ rest)

cut-append :
    (c : ℕ) (s : Bytes)
    → ((cut c s).1 ≡ none → (cut c s).0 ≡ s)
      × ((t : Bytes) → (cut c s).1 ≡ some t → (cut c s).0 ++ c ∷ t ≡ s)
unfolding cut
cut-append c [] = (λ h. refl, λ t h. absurd (cc))
cut-append c (x ∷ s) =
    let ih = cut-append c s in
    elim (Bool-cases (x == c)) [
      | inl same ↦ rw same (λ h. absurd (cc), λ t h. ground (arith, ==_iff x c))
      | inr other ↦ rw other (λ h. ap (◌∷◌ x) (ih.0 h), λ t h. ap (◌∷◌ x) (ih.1 t h))
    ]

cut-host :
    (s host : Bytes) (port : Option Bytes)
    → cut b':' s ≡ (host, port)
    → all_host_bytes host ≡ true
    → is_port port ≡ true
    → all_host_bytes s ≡ true
cut-host s host none e h p =
    let same : host ≡ s = sym (ap (λ x. x.0) e) ∙ (cut-append b':' s).0 (ap (λ x. x.1) e) in
    subst (λ t. all_host_bytes t ≡ true) same h
cut-host s host (some port) e h p =
    let whole : host ++ b':' ∷ port ≡ s =
      ap (λ (x : Bytes). x ++ b':' ∷ port) (sym (ap (λ x. x.0) e))
      ∙ (cut-append b':' s).1 port (ap (λ x. x.1) e) in
    let digits : all_digits port ≡ true = unfold is_port in ground arith in
    let tail : all_host_bytes (b':' ∷ port) ≡ true =
      unfold all_host_bytes is_host_byte is_alnum in ground (arith, all_digits-host port) in
    subst (λ t. all_host_bytes t ≡ true) whole (all_host_bytes-append host (b':' ∷ port) h tail)

pub matches_host-host : (s : Bytes) → matches_host s ≡ true → all_host_bytes s ≡ true
unfolding matches_host
matches_host-host s h =
    let host = (cut b':' s).0 in
    let labels : all_labels (split b'.' host) ≡ true = ground arith in
    cut-host s host (cut b':' s).1 refl
      (subst (λ t. all_host_bytes t ≡ true) (join-split b'.' host)
        (join-host (split b'.' host) labels))
      (ground arith)

pub matches_host-nil : matches_host [] ≡ false
unfolding matches_host cut split all_labels is_label
matches_host-nil = refl
