-- ===== src/Server/Writes/Serial.antt =====
-- The replies of a connection go out whole and in their order, however their writes interleave.
use smf.Prelude.{
  ℕ, zero, suc, ◌≡◌, refl, sym, ap, ◌∙◌, Bool, true, false, List, [], ◌∷◌, ◌++◌, append_assoc,
  append-nil, some, inl, inr, arith, pluck, Bool-cases, Option-cases, length, ◌≤◌, if◌then◌else◌,
}
use mathlib.Core.Option.{some-injective}
use mathlib.Core.Path.{subst}
use smf.Rpc.Stream.{OutputStream}
use smf.Rpc.Header.{to_bytes}
use smf.Rpc.Envelope.{Envelope}
use smf.Rpc.Framing.{frame}
use smf.Server.Writes.{
  Writer, Sending, Event, starting, header_written, body_written, replied, goes_on, flushed, fresh,
  goes_out, wake, with_semaphore, signal, go_on, at_sending, step, run,
}

abbrev pub replies : List Event → List Envelope
replies [] = []
replies (replied e ∷ xs) = e ∷ replies xs
replies (goes_on k ∷ xs) = replies xs
replies (flushed ∷ xs) = replies xs

replies-cons : (x : Event) (xs : List Event) → replies (x ∷ []) ++ replies xs ≡ replies (x ∷ xs)
replies-cons (replied e) xs = refl
replies-cons (goes_on k) xs = refl
replies-cons flushed xs = refl

module _ {O : Type 0} (out : OutputStream O) (debug : Bool) where
  -- What a reply adds to the stream when it is sent at once.
  unfoldable pub sent_one : Envelope → List ℕ
  unfolding frame
  sent_one e = if goes_out out debug e then frame e.letter else []

  -- The abstract writer: replies are sent at once, one after another.
  unfoldable pub sent : List Envelope → List ℕ
  sent [] = []
  sent (e ∷ es) = sent_one e ++ sent es

  -- Where the writer stands between two replies of the abstract one, which has sent `bytes` and has
  -- still to send `rest`.
  unfoldable pub IsAt : List ℕ → List Envelope → List Sending → Writer O → Type 0
  IsAt bytes rest [] w =
      (w.units ≡ 1) × (w.waiting ≡ []) × (rest ≡ []) × (out.written w.ostream ≡ bytes)
  IsAt bytes rest (starting e ∷ []) w =
      (w.units ≡ 0) × (rest ≡ e ∷ w.waiting) × (out.written w.ostream ≡ bytes)
  IsAt bytes rest (header_written e ∷ []) w =
      (w.units ≡ 0)
      × (rest ≡ e ∷ w.waiting)
      × (out.written w.ostream ≡ bytes ++ to_bytes e.letter.header)
      × (goes_out out debug e ≡ true)
  IsAt bytes rest (body_written e ∷ []) w =
      (w.units ≡ 0)
      × (rest ≡ e ∷ w.waiting)
      × (out.written w.ostream ≡ bytes ++ frame e.letter)
      × (goes_out out debug e ≡ true)
  IsAt bytes rest (s ∷ t ∷ others) w = ⊥

  -- The replies so far are those that are sent and those that are not.
  pub record Refines (bytes : List ℕ) (es : List Envelope) (w : Writer O) : Type 0 where
    pub done : List Envelope
    pub rest : List Envelope
    pub split : es ≡ done ++ rest
    pub at : IsAt (bytes ++ sent done) rest w.sending w

  fresh-Refines : (o : O) → Refines (out.written o) [] (fresh out debug o)
  unfolding fresh IsAt sent
  fresh-Refines o = record {
    done = [];
    rest = [];
    split = refl;
    at = (refl, refl, refl, sym (append-nil (out.written o)));
  }

  IsAt-with_semaphore :
      (bytes : List ℕ) (rest : List Envelope) (e : Envelope) (s : List Sending) (w : Writer O)
      → w.sending ≡ s
      → IsAt bytes rest s w
      → IsAt bytes
          (rest ++ e ∷ [])
          (with_semaphore out debug e w).sending
          (with_semaphore out debug e w)
  unfolding IsAt with_semaphore wake
  IsAt-with_semaphore bytes rest e [] w q h = rw (h.0, h.1, q) (refl, rw (h.2) refl, h.3)
  IsAt-with_semaphore bytes rest e (starting d ∷ []) w q h =
      rw (h.0, q) (refl, ap (λ l. l ++ e ∷ []) h.1, h.2)
  IsAt-with_semaphore bytes rest e (header_written d ∷ []) w q h =
      rw (h.0, q) (refl, ap (λ l. l ++ e ∷ []) h.1, h.2, h.3)
  IsAt-with_semaphore bytes rest e (body_written d ∷ []) w q h =
      rw (h.0, q) (refl, ap (λ l. l ++ e ∷ []) h.1, h.2, h.3)
  IsAt-with_semaphore bytes rest e (s ∷ t ∷ others) w q h = absurd h

  -- The unit comes back: the next who waits starts.
  IsAt-signal :
      (bytes : List ℕ) (w : Writer O)
      → w.units ≡ 0
      → w.sending ≡ []
      → out.written w.ostream ≡ bytes
      → IsAt bytes w.waiting (signal out debug w).sending (signal out debug w)
  unfolding IsAt signal wake
  IsAt-signal bytes w u q b = rw u (ground arith)

  sent-snoc : (es : List Envelope) (e : Envelope) → sent (es ++ e ∷ []) ≡ sent es ++ sent_one e
  unfolding sent
  sent-snoc [] e = append-nil (sent_one e)
  sent-snoc (d ∷ es) e =
      ap (λ (bs : List ℕ). sent_one d ++ bs) (sent-snoc es e)
      ∙ sym (append_assoc (sent_one d) (sent es) (sent_one e))

  sent_one-false : (e : Envelope) → goes_out out debug e ≡ false → sent_one e ≡ []
  unfolding sent_one
  sent_one-false e held = rw held refl

  pub sent_one-true : (e : Envelope) → goes_out out debug e ≡ true → sent_one e ≡ frame e.letter
  unfolding sent_one
  sent_one-true e free = rw free refl

  -- The reply that held the unit is through.
  signal-Refines :
      (bytes : List ℕ) (es done : List Envelope) (e : Envelope) (w : Writer O)
      → es ≡ done ++ e ∷ w.waiting
      → w.units ≡ 0
      → w.sending ≡ []
      → out.written w.ostream ≡ bytes ++ sent done ++ sent_one e
      → Refines bytes es (signal out debug w)
  signal-Refines bytes es done e w split u q b = record {
    done = done ++ e ∷ [];
    rest = w.waiting;
    split = split ∙ sym (append_assoc done (e ∷ []) w.waiting);
    at = IsAt-signal (bytes ++ sent (done ++ e ∷ [])) w u q (
        b
        ∙ append_assoc bytes (sent done) (sent_one e)
        ∙ ap (λ (bs : List ℕ). bytes ++ bs) (sym (sent-snoc done e)));
  }

  go_on-Refines :
      (bytes : List ℕ) (es done rest : List Envelope) (s : Sending) (w : Writer O)
      → es ≡ done ++ rest
      → IsAt (bytes ++ sent done) rest (s ∷ []) w
      → Refines bytes es (go_on out debug s [] w)
  unfolding go_on IsAt frame
  go_on-Refines bytes es done rest (starting e) w split h =
      elim (Bool-cases (goes_out out debug e)) [
        | inl free ↦ rw free (record {
          done = done;
          rest = rest;
          split = split;
          at = (
            h.0,
            h.1,
            out.written-write (to_bytes e.letter.header) w.ostream
                ∙ ap (λ (bs : List ℕ). bs ++ to_bytes e.letter.header) h.2,
            free,
          );
        })
        | inr held ↦ rw held (
            signal-Refines bytes es done e (record w { sending = [] })
              (split ∙ ap (λ (r : List Envelope). done ++ r) h.1) h.0 refl
              (h.2 ∙ rw (sent_one-false e held, append-nil (bytes ++ sent done)) refl))
      ]
  go_on-Refines bytes es done rest (header_written e) w split h = record {
    done = done;
    rest = rest;
    split = split;
    at = (
      h.0,
      h.1,
      out.written-write e.letter.body w.ostream
          ∙ ap (λ (bs : List ℕ). bs ++ e.letter.body) h.2
          ∙ append_assoc (bytes ++ sent done) (to_bytes e.letter.header) e.letter.body,
      h.3,
    );
  }
  go_on-Refines bytes es done rest (body_written e) w split h =
      signal-Refines bytes es done e (record w { ostream = out.flush w.ostream; sending = [] })
        (split ∙ ap (λ (r : List Envelope). done ++ r) h.1) h.0 refl
        (out.written-flush w.ostream ∙ h.2 ∙ rw (sent_one-true e h.3) refl)

  -- Nothing that a step does is out of the order of the abstract writer.
  at_sending-Refines :
      (bytes : List ℕ) (es : List Envelope) (k : ℕ) (s : List Sending) (w w' : Writer O)
      → (r : Refines bytes es w) → w.sending ≡ s
      → at_sending out debug (pluck k s) w ≡ some w'
      → Refines bytes es w'
  unfolding at_sending IsAt
  at_sending-Refines bytes es k [] w w' r q done = ground arith
  at_sending-Refines bytes es zero (s ∷ []) w w' r q done =
      subst (Refines bytes es) (some-injective _ _ done) (
        go_on-Refines bytes es r.done r.rest s w r.split
          (subst (λ t. IsAt (bytes ++ sent r.done) r.rest t w) q r.at))
  at_sending-Refines bytes es (suc k) (s ∷ []) w w' r q done = ground arith
  at_sending-Refines bytes es k (s ∷ t ∷ others) w w' r q done =
      absurd (subst (λ t. IsAt (bytes ++ sent r.done) r.rest t w) q r.at)

  IsAt-flush :
      (bytes : List ℕ) (rest : List Envelope) (s : List Sending) (w : Writer O)
      → IsAt bytes rest s w
      → IsAt bytes rest s (record w { ostream = out.flush w.ostream })
  unfolding IsAt
  IsAt-flush bytes rest [] w h = (h.0, h.1, h.2, out.written-flush w.ostream ∙ h.3)
  IsAt-flush bytes rest (starting e ∷ []) w h = (h.0, h.1, out.written-flush w.ostream ∙ h.2)
  IsAt-flush bytes rest (header_written e ∷ []) w h =
      (h.0, h.1, out.written-flush w.ostream ∙ h.2, h.3)
  IsAt-flush bytes rest (body_written e ∷ []) w h =
      (h.0, h.1, out.written-flush w.ostream ∙ h.2, h.3)
  IsAt-flush bytes rest (s ∷ t ∷ others) w h = absurd h

  IsAt-one :
      (bytes : List ℕ) (rest : List Envelope) (s : List Sending) (w : Writer O)
      → IsAt bytes rest s w
      → length s ≤ 1
  unfolding IsAt
  IsAt-one bytes rest [] w h = omega arith
  IsAt-one bytes rest (s ∷ []) w h = omega arith
  IsAt-one bytes rest (s ∷ t ∷ others) w h = absurd h

  all_sent :
      (bytes : List ℕ) (es : List Envelope) (w : Writer O)
      → Refines bytes es w
      → w.sending ≡ []
      → out.written w.ostream ≡ bytes ++ sent es
  unfolding IsAt
  all_sent bytes es w r idle =
      let h = subst (λ s. IsAt (bytes ++ sent r.done) r.rest s w) idle r.at in
      h.3 ∙ ap (λ l. bytes ++ sent l) (sym (r.split ∙ rw h.2 (append-nil r.done)))

  step-Refines :
      (bytes : List ℕ) (es : List Envelope) (x : Event) (w w' : Writer O)
      → Refines bytes es w
      → step out debug x w ≡ some w'
      → Refines bytes (es ++ replies (x ∷ [])) w'
  unfolding step
  step-Refines bytes es (replied e) w w' r now =
      subst (Refines bytes (es ++ e ∷ [])) (some-injective _ _ now) (record {
        done = r.done;
        rest = r.rest ++ e ∷ [];
        split =
            ap (λ (l : List Envelope). l ++ e ∷ []) r.split ∙ append_assoc r.done r.rest (e ∷ []);
        at = IsAt-with_semaphore (bytes ++ sent r.done) r.rest e w.sending w refl r.at;
      })
  step-Refines bytes es (goes_on k) w w' r now =
      rw (append-nil es) (at_sending-Refines bytes es k w.sending w w' r refl now)
  step-Refines bytes es flushed w w' r now = rw (append-nil es) (
      subst (Refines bytes es) (some-injective _ _ now) (record {
        done = r.done;
        rest = r.rest;
        split = r.split;
        at = IsAt-flush (bytes ++ sent r.done) r.rest w.sending w r.at;
      }))

  run-Refines :
      (xs : List Event) (bytes : List ℕ) (es : List Envelope) (w w' : Writer O)
      → Refines bytes es w
      → run out debug xs w ≡ some w'
      → Refines bytes (es ++ replies xs) w'
  unfolding run
  run-Refines [] bytes es w w' r done =
      rw (append-nil es) (subst (Refines bytes es) (some-injective _ _ done) r)
  run-Refines (x ∷ xs) bytes es w w' r done = elim (Option-cases (step out debug x w)) [
    | inl stuck ↦ ground arith
    | inr (t, now) ↦
        subst (λ es'. Refines bytes es' w')
          (append_assoc es (replies (x ∷ [])) (replies xs)
            ∙ ap (λ (l : List Envelope). es ++ l) (replies-cons x xs))
          (run-Refines xs bytes (es ++ replies (x ∷ [])) t w' (step-Refines bytes es x w t r now)
            (ground arith))
  ]

  -- From a new connection, however the replies and their writes interleave, the replies that have
  -- come are those that are sent whole, in the order in which they came, and then those that are
  -- not sent yet, the first of which may be half written; one at most is being sent, and when none
  -- is, what is written is what a writer that sends each reply at once has written. A reply that
  -- the checks of a debug build reject writes nothing.
  pub replies_serialize :
      (o : O) (xs : List Event) (w : Writer O)
      → run out debug xs (fresh out debug o) ≡ some w
      → Refines (out.written o) (replies xs) w
        × (length w.sending ≤ 1)
        × (w.sending ≡ [] → out.written w.ostream ≡ out.written o ++ sent (replies xs))
  replies_serialize o xs w done =
      let r = run-Refines xs (out.written o) [] (fresh out debug o) w (fresh-Refines o) done in
      (
        r,
        IsAt-one (out.written o ++ sent r.done) r.rest w.sending w r.at,
        λ idle. all_sent (out.written o) (replies xs) w r idle,
      )
