-- ===== src/LogBuffer/Refine.antt =====
-- The buffer against the whole log: after any writes it holds the first `head_cap` bytes ever
-- written and the last `tail_cap` bytes of the others.
use mathlib.Core.List.{foldl, flatten}
use zbplan.Prelude.{
  ℕ, ◌+◌, ◌-◌, ◌/◌, ◌≤◌, ◌<◌, min, ◌≡◌, refl, sym, ap, ◌∙◌, inl, inr, List, [], ◌∷◌, ◌++◌,
  append-nil, append_assoc, arith, Bytes, length, take, drop, drop-nil, length-append, length-take,
  length-drop, take-append, drop-append, take-append-drop, drop-drop, take_of_length-le,
  drop_of_length-le, leb, ltb, ◌==◌, if◌then◌else◌, Bool-cases, ◌||◌, last, last-append, last-last,
  last_of_length-le, take-min-length, drop-min-length, take-length-append,
}
use zbplan.LogBuffer.{
  LogBuffer, new_log_buffer, copy, fill_head, push_tail, fill_tail, write, truncation_notice,
  to_string,
}

-- What the fields mean after the log `h` was written to a buffer of `limit` bytes.
pub record Tracks (limit : ℕ) (h : Bytes) (b : LogBuffer) : Type 0 where
  pub limit_of : b.limit ≡ limit
  pub head_cap_of : b.head_cap ≡ limit / 3
  pub tail_cap_of : b.tail_cap ≡ limit - limit / 3
  pub total : b.total ≡ length h
  pub head : b.head ≡ take b.head_cap h
  pub tail : b.tail ≡ last b.tail_cap (drop b.head_cap h)

new_log_buffer-Tracks : (limit : ℕ) → Tracks limit [] (new_log_buffer limit)
unfolding new_log_buffer
new_log_buffer-Tracks limit = record {
  limit_of = refl;
  head_cap_of = refl;
  tail_cap_of = refl;
  total = refl;
  head = sym (take_of_length-le (limit / 3) [] (omega arith));
  tail = sym (simp drop-nil);
}

-- Moving the rest of a slice to its front, and cutting the slice there, drops the front.
take-copy-drop :
    (n : ℕ) (xs : Bytes) → n ≤ length xs → take (length xs - n) (copy xs (drop n xs)) ≡ drop n xs
unfolding copy
take-copy-drop n xs h =
    let e : length xs - n ≡ length (drop n xs) = omega (arith, length-drop n xs) in
    rw (take_of_length-le (length xs) (drop n xs) (omega (arith, length-drop n xs)), e)
      (take-length-append (drop n xs) _)

module _ (b : LogBuffer) (x p : Bytes) (held : b.tail ≡ last b.tail_cap x) where
  kept-last :
      length p < b.tail_cap
      → (if ltb 0 (length b.tail + length p - b.tail_cap)
          then take
              (length b.tail - (length b.tail + length p - b.tail_cap))
              (copy b.tail (drop (length b.tail + length p - b.tail_cap) b.tail))
          else b.tail)
        ≡ last (b.tail_cap - length p) x
  kept-last h =
      let over = length b.tail + length p - b.tail_cap in
      let shorter : last (b.tail_cap - length p) b.tail ≡ last (b.tail_cap - length p) x =
        rw held (last-last (b.tail_cap - length p) b.tail_cap x (omega arith)) in
      elim (Bool-cases (ltb 0 over)) [
        | inl some_over ↦
            let e : over ≡ length b.tail - (b.tail_cap - length p) = ground arith in
            rw (some_over, take-copy-drop over b.tail (omega arith), e) shorter
        | inr fits ↦ rw fits (sym (last_of_length-le _ b.tail (ground arith)) ∙ shorter)
      ]

  -- The tail after `p` is the last bytes of what it saw, `p` included.
  push_tail-last : length p < b.tail_cap → (push_tail b p).tail ≡ last b.tail_cap (x ++ p)
  unfolding push_tail
  push_tail-last h =
      rw (last-append, last_of_length-le b.tail_cap p (omega arith))
        (ap (λ l. l ++ p) (kept-last h))

  fill_tail-last : (fill_tail b p).tail ≡ last b.tail_cap (x ++ p)
  unfolding fill_tail
  fill_tail-last = elim (Bool-cases (length p == 0 || b.tail_cap == 0)) [
    | inl idle ↦
        let e : b.tail_cap - length p ≡ b.tail_cap = ground arith in
        let z : last b.tail_cap p ≡ [] = drop_of_length-le _ p (ground arith) in
        rw (idle, last-append, e, z, append-nil) held
    | inr busy ↦ rw busy (elim (Bool-cases (leb b.tail_cap (length p))) [
      | inl long ↦
          let e : b.tail_cap - length p ≡ 0 = ground arith in
          let z : last 0 x ≡ [] = drop_of_length-le (length x - 0) x (omega arith) in
          rw (long, last-append, e, z) refl
      | inr short ↦ rw short (push_tail-last (ground arith))
    ])
  ]

module _ (b : LogBuffer) (h p : Bytes) (held : b.head ≡ take b.head_cap h) where
  length-head : length b.head ≡ min b.head_cap (length h)
  length-head = ap length held ∙ length-take b.head_cap h

  fill_head-take : (fill_head b p).0.head ≡ take b.head_cap (h ++ p)
  unfolding fill_head
  fill_head-take = elim (Bool-cases (ltb 0 (b.head_cap - length b.head))) [
    | inl room ↦
        let e : length h ≡ length b.head = ground (arith, length-head) in
        rw (room, take-append, take-min-length, e)
          (ap (λ l. l ++ take (b.head_cap - length b.head) p) held)
    | inr full ↦
        let e : b.head_cap - length h ≡ 0 = ground (arith, length-head) in
        rw (full, take-append, e, append-nil) held
  ]

  fill_head-drop : drop b.head_cap (h ++ p) ≡ drop b.head_cap h ++ (fill_head b p).1
  unfolding fill_head
  fill_head-drop = elim (Bool-cases (ltb 0 (b.head_cap - length b.head))) [
    | inl room ↦
        let e : length h ≡ length b.head = ground (arith, length-head) in
        rw (room, drop-append, drop-min-length, e) refl
    | inr full ↦
        let e : b.head_cap - length h ≡ 0 = ground (arith, length-head) in
        rw (full, drop-append, e) refl
  ]

-- The fields that a part of `Write` leaves alone.
fill_head-rest :
    (b : LogBuffer) (p : Bytes)
    → ((fill_head b p).0.limit ≡ b.limit)
      × ((fill_head b p).0.head_cap ≡ b.head_cap)
      × ((fill_head b p).0.tail_cap ≡ b.tail_cap)
      × ((fill_head b p).0.total ≡ b.total)
      × ((fill_head b p).0.tail ≡ b.tail)
unfolding fill_head
fill_head-rest b p = ground arith

fill_tail-rest :
    (b : LogBuffer) (p : Bytes)
    → ((fill_tail b p).limit ≡ b.limit)
      × ((fill_tail b p).head_cap ≡ b.head_cap)
      × ((fill_tail b p).tail_cap ≡ b.tail_cap)
      × ((fill_tail b p).total ≡ b.total)
      × ((fill_tail b p).head ≡ b.head)
unfolding fill_tail push_tail
fill_tail-rest b p = ground arith

-- A sequence of writes.
pub write_all : LogBuffer → List Bytes → LogBuffer
write_all = foldl (λ b p. (write b p).0)

module _ {limit : ℕ} where
  write-Tracks :
      (b : LogBuffer) (h p : Bytes) → Tracks limit h b → Tracks limit (h ++ p) (write b p).0
  unfolding write
  write-Tracks b h p t =
      let b₁ = record b { total = b.total + length p } in
      let b₂ = (fill_head b₁ p).0 in
      let rest = (fill_head b₁ p).1 in
      let (l₂, hc₂, tc₂, total₂, tail₂) = fill_head-rest b₁ p in
      let (l₃, hc₃, tc₃, total₃, head₃) = fill_tail-rest b₂ rest in
      let hc : (fill_tail b₂ rest).head_cap ≡ b.head_cap = hc₃ ∙ hc₂ in
      let tc : (fill_tail b₂ rest).tail_cap ≡ b.tail_cap = tc₃ ∙ tc₂ in
      let held : b₂.tail ≡ last b₂.tail_cap (drop b.head_cap h) = rw (tail₂, tc₂) t.tail in
      record {
        limit_of = l₃ ∙ l₂ ∙ t.limit_of;
        head_cap_of = hc ∙ t.head_cap_of;
        tail_cap_of = tc ∙ t.tail_cap_of;
        total = rw (total₃, total₂) (omega (arith, length-append h p));
        head = rw (head₃, hc) (fill_head-take b₁ h p t.head);
        tail =
            rw (fill_tail-last b₂ (drop b.head_cap h) rest held, hc, tc, tc₂)
              (ap (last b.tail_cap) (sym (fill_head-drop b₁ h p t.head)));
      }

  write_all-Tracks :
      (b : LogBuffer) (h : Bytes) (ps : List Bytes)
      → Tracks limit h b
      → Tracks limit (h ++ flatten ps) (write_all b ps)
  unfolding write_all flatten
  write_all-Tracks b h [] t = rw append-nil t
  write_all-Tracks b h (p ∷ ps) t =
      rw (← append_assoc h p (flatten ps))
        (write_all-Tracks (write b p).0 (h ++ p) ps (write-Tracks b h p t))

  Tracks-bound :
      (h : Bytes) (b : LogBuffer) → Tracks limit h b → length b.head + length b.tail ≤ limit
  Tracks-bound h b t =
      let d : length (last b.tail_cap (drop b.head_cap h))
          ≡ length (drop b.head_cap h) - (length (drop b.head_cap h) - b.tail_cap) =
        length-drop _ (drop b.head_cap h) in
      rw (t.head, t.tail, length-take, d) (omega arith)

  Tracks-to_string :
      (h : Bytes) (b : LogBuffer)
      → Tracks limit h b
      → to_string b ≡ (
          if leb (length h) limit
          then h
          else take (limit / 3) h ++ (truncation_notice (length h) ++ last (limit - limit / 3) h))
  unfolding to_string
  Tracks-to_string h b t =
      rw (t.head, t.tail, t.total, t.limit_of, t.head_cap_of, t.tail_cap_of)
        (let d = length-drop (limit / 3) h in
          elim (Bool-cases (leb (length h) limit)) [
            | inl fits ↦
                rw (fits, last_of_length-le (limit - limit / 3) (drop (limit / 3) h) (ground arith))
                  (take-append-drop (limit / 3) h)
            | inr long ↦
                let e : limit / 3 + (length (drop (limit / 3) h) - (limit - limit / 3))
                    ≡ length h - (limit - limit / 3) =
                  ground arith in
                rw (long, drop-drop, e) refl
          ])

-- After any sequence of writes to a new buffer, it shows the concatenation of what was written
-- where that fits in `limit`, and else its first `limit / 3` bytes, a notice of its true length,
-- and its last `limit - limit / 3` bytes.
pub to_string-write_all :
    (limit : ℕ) (ps : List Bytes)
    → to_string (write_all (new_log_buffer limit) ps) ≡ (
        if leb (length (flatten ps)) limit
        then flatten ps
        else take (limit / 3) (flatten ps)
          ++ (truncation_notice (length (flatten ps)) ++ last (limit - limit / 3) (flatten ps)))
to_string-write_all limit ps =
    Tracks-to_string (flatten ps) _
      (write_all-Tracks (new_log_buffer limit) [] ps (new_log_buffer-Tracks limit))

-- After any sequence of writes to a new buffer, the bytes that it retains are at most `limit`.
pub write_all-bound :
    (limit : ℕ) (ps : List Bytes)
    → length (write_all (new_log_buffer limit) ps).head
        + length (write_all (new_log_buffer limit) ps).tail
      ≤ limit
write_all-bound limit ps =
    Tracks-bound (flatten ps) _
      (write_all-Tracks (new_log_buffer limit) [] ps (new_log_buffer-Tracks limit))
