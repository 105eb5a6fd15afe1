-- ===== src/Gather/Sent.antt =====
-- What goroutines send from a state to the end of the loop, and that the loop receives just this.
use mathlib.Core.List.{Permᴰ}
use mathlib.Core.List.Permᴰ
use mathlib.Core.Path.{subst}
use zbplan.Gather.{
  Worker, waiting, sending, IsDone, Gathering, Step, cancel, begin, send, close, receive, Steps,
  rest, more, IsOver, concat,
}
use zbplan.Gather.Sound.{IsSound}
use zbplan.Prelude.{
  ℕ, Bool, true, false, List, [], ◌∷◌, ◌++◌, append_assoc, append-nil, ◌≡◌, ◌⊎◌, inl, inr, refl,
  sym, ap, ◌∙◌, if◌then◌else◌, Bool-cases, All,
}

module _ {A : Type 0} where
  -- What a goroutine sends from now on, where the context is cancelled now and at the end.
  unfoldable pub Sends : Bool → Bool → Worker A → List A → Type 0
  Sends now later (waiting found) sent =
      ((now ≡ false) × (sent ≡ found)) ⊎ ((later ≡ true) × (sent ≡ []))
  Sends now later (sending left) sent = sent ≡ left

  unfoldable pub AllSend : Bool → Bool → List (Worker A) → List (List A) → Type 0
  unfolding Sends
  AllSend now later [] [] = Unit
  AllSend now later [] (y ∷ ys) = ⊥
  AllSend now later (w ∷ ws) [] = ⊥
  AllSend now later (w ∷ ws) (y ∷ ys) = Sends now later w y × AllSend now later ws ys

  -- The goroutine at a place, and what it sends.
  record IsPlaced (now later : Bool) (before : List (Worker A)) (w : Worker A)
      (after : List (Worker A)) (sent : List (List A)) : Type 0 where
    ahead : List (List A)
    own : List A
    behind : List (List A)
    parts : sent ≡ ahead ++ own ∷ behind
    sends : Sends now later w own
    again :
        (w' : Worker A) (own' : List A)
        → Sends now later w' own'
        → AllSend now later (before ++ w' ∷ after) (ahead ++ own' ∷ behind)

  place :
      (now later : Bool) (before : List (Worker A)) (w : Worker A) (after : List (Worker A))
      (sent : List (List A))
      → AllSend now later (before ++ w ∷ after) sent
      → IsPlaced now later before w after sent
  unfolding AllSend
  place now later [] w after [] h = absurd h
  place now later [] w after (y ∷ ys) (p, h) = record {
    ahead = [];
    own = y;
    behind = ys;
    parts = refl;
    sends = p;
    again = λ w' y' p'. (p', h);
  }
  place now later (v ∷ before) w after [] h = absurd h
  place now later (v ∷ before) w after (y ∷ ys) (p, h) =
      let r = place now later before w after ys h in
      record {
        ahead = y ∷ r.ahead;
        own = r.own;
        behind = r.behind;
        parts = ap (◌∷◌ y) r.parts;
        sends = r.sends;
        again = λ w' y' p'. (p, r.again w' y' p');
      }

  concat-middle :
      (before : List (List A)) (xs : List A) (after : List (List A))
      → concat (before ++ xs ∷ after) ≡ concat before ++ (xs ++ concat after)
  unfolding concat
  concat-middle [] xs after = refl
  concat-middle (ys ∷ before) xs after =
      ap (λ r. ys ++ r) (concat-middle before xs after)
      ∙ sym (append_assoc ys (concat before) (xs ++ concat after))

  moved :
      (got ahead behind : List A) (x : A)
      → Permᴰ (got ++ (ahead ++ x ∷ behind)) ((got ++ x ∷ []) ++ (ahead ++ behind))
  moved got ahead behind x =
      subst (λ l. Permᴰ (got ++ (ahead ++ x ∷ behind)) l)
        (sym (append_assoc got (x ∷ []) (ahead ++ behind)))
        (Permᴰ.append_left got (Permᴰ.middle x ahead behind))

  -- What was received, what the channel holds, and what is still to be sent.
  abbrev pub everything : Gathering A → List (List A) → List A
  everything s sent = s.received ++ (s.buffer ++ concat sent)

  -- From a state to the end, what was received is what the goroutines send, in some order.
  pub record IsDelivered (s : Gathering A) (later : Bool) (got : List A) : Type 0 where
    pub sent : List (List A)
    pub sends : AllSend s.cancelled later s.workers sent
    pub all : Permᴰ (everything s sent) got

  still_cancelled :
      {capacity n : ℕ} {s t : Gathering A}
      → Steps capacity n s t
      → s.cancelled ≡ true
      → t.cancelled ≡ true
  still_cancelled (rest s) h = h
  still_cancelled (more (cancel s e) r) h = still_cancelled r refl
  still_cancelled (more (begin s before found after e) r) h = still_cancelled r h
  still_cancelled (more (send s before x xs after e room) r) h = still_cancelled r h
  still_cancelled (more (close s done still) r) h = still_cancelled r h
  still_cancelled (more (receive s x xs e) r) h = still_cancelled r h

  cancelled_later :
      (later : Bool) (ws : List (Worker A)) (sent : List (List A))
      → AllSend true later ws sent
      → AllSend false later ws sent
  unfolding AllSend Sends
  cancelled_later later [] [] h = tt
  cancelled_later later [] (y ∷ ys) h = h
  cancelled_later later (w ∷ ws) [] h = h
  cancelled_later later (waiting xs ∷ ws) (y ∷ ys) (inl (e, k), h) = absurd (cc)
  cancelled_later later (waiting xs ∷ ws) (y ∷ ys) (inr p, h) =
      (inr p, cancelled_later later ws ys h)
  cancelled_later later (sending xs ∷ ws) (y ∷ ys) (p, h) = (p, cancelled_later later ws ys h)

  -- Each step that leads to the end.
  Step-IsDelivered :
      {capacity n : ℕ} {s u t : Gathering A}
      → Step capacity s u
      → Steps capacity n u t
      → IsDelivered u t.cancelled t.received
      → IsDelivered s t.cancelled t.received
  unfolding Sends
  Step-IsDelivered {t = t} (cancel s e) r d = record {
    sent = d.sent;
    sends =
        subst (λ c. AllSend c t.cancelled s.workers d.sent) (sym e)
          (cancelled_later t.cancelled s.workers d.sent d.sends);
    all = d.all;
  }
  Step-IsDelivered {t = t} (begin s before found after e) r d =
      let p = place s.cancelled t.cancelled before _ after d.sent d.sends in
      let own : Sends s.cancelled t.cancelled (waiting found) p.own =
        elim (Bool-cases (s.cancelled)) [
          | inl stop ↦
              inr (still_cancelled r stop, p.sends ∙ ap (λ c. if c then [] else found) stop)
          | inr go ↦ inl (go, p.sends ∙ ap (λ c. if c then [] else found) go)
        ] in
      record {
        sent = d.sent;
        sends =
            subst (λ ws. AllSend s.cancelled t.cancelled ws d.sent) (sym e)
              (subst (λ l. AllSend s.cancelled t.cancelled (before ++ waiting found ∷ after) l)
                (sym p.parts) (p.again (waiting found) p.own own));
        all = d.all;
      }
  Step-IsDelivered {t = t} (send s before x xs after e room) r d =
      let p = place s.cancelled t.cancelled before (sending xs) after d.sent d.sends in
      let own : p.own ≡ xs = p.sends in
      let from : concat (p.ahead ++ (x ∷ xs) ∷ p.behind)
          ≡ concat p.ahead ++ x ∷ (xs ++ concat p.behind) =
        concat-middle p.ahead (x ∷ xs) p.behind in
      let to : concat d.sent ≡ concat p.ahead ++ (xs ++ concat p.behind) =
        ap concat p.parts
        ∙ concat-middle p.ahead p.own p.behind
        ∙ ap (λ l. concat p.ahead ++ (l ++ concat p.behind)) own in
      let step : Permᴰ (s.buffer ++ concat (p.ahead ++ (x ∷ xs) ∷ p.behind))
          ((s.buffer ++ x ∷ []) ++ concat d.sent) =
        subst (λ l. Permᴰ (s.buffer ++ l) ((s.buffer ++ x ∷ []) ++ concat d.sent)) (sym from)
          (subst
            (λ l.
              Permᴰ (s.buffer ++ (concat p.ahead ++ x ∷ (xs ++ concat p.behind)))
                ((s.buffer ++ x ∷ []) ++ l))
            (sym to) (moved s.buffer (concat p.ahead) (xs ++ concat p.behind) x)) in
      record {
        sent = p.ahead ++ (x ∷ xs) ∷ p.behind;
        sends =
            subst (λ ws. AllSend s.cancelled t.cancelled ws (p.ahead ++ (x ∷ xs) ∷ p.behind))
              (sym e) (p.again (sending (x ∷ xs)) (x ∷ xs) refl);
        all = Permᴰ.trans (Permᴰ.append_left s.received step) d.all;
      }
  Step-IsDelivered (close s done still) r d = record { sent = d.sent; sends = d.sends; all = d.all }
  Step-IsDelivered {t = t} (receive s x xs e) r d = record {
    sent = d.sent;
    sends = d.sends;
    all =
        subst (λ l. Permᴰ l t.received)
          (append_assoc s.received (x ∷ []) (xs ++ concat d.sent)
            ∙ ap (λ b. s.received ++ (b ++ concat d.sent)) (sym e))
          d.all;
  }

  nothing_left :
      (now later : Bool) (ws : List (Worker A))
      → All IsDone ws
      → (sent : List (List A)) × AllSend now later ws sent × (concat sent ≡ [])
  unfolding AllSend Sends concat
  nothing_left now later [] h = ([], tt, refl)
  nothing_left now later (w ∷ ws) (e, h) =
      let (sent, sends, none) = nothing_left now later ws h in
      ([] ∷ sent, (subst (λ v. Sends now later v []) (sym e) refl, sends), none)

  pub Steps-IsDelivered :
      {capacity n : ℕ} {s t : Gathering A}
      → Steps capacity n s t
      → IsSound capacity t
      → IsOver t
      → IsDelivered s t.cancelled t.received
  Steps-IsDelivered (rest s) h over =
      let (sent, sends, none) =
        nothing_left s.cancelled s.cancelled s.workers (h.done over.closed) in
      record {
        sent = sent;
        sends = sends;
        all =
            subst (λ l. Permᴰ l s.received)
              (sym (
                ap (λ b. s.received ++ (b ++ concat sent)) over.empty
                ∙ ap (λ l. s.received ++ l) none
                ∙ append-nil s.received))
              (Permᴰ.refl s.received);
      }
  Steps-IsDelivered (more d r) h over = Step-IsDelivered d r (Steps-IsDelivered r h over)
