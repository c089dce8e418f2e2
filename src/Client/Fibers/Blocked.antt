-- ===== src/Client/Fibers/Blocked.antt =====
-- A request that is larger than all the memory of its client.
use mathlib.Core.Path.{subst}
use mathlib.Core.Option.{some-injective}
use smf.Prelude.{
  ℕ, zero, suc, ◌≡◌, refl, ◌<◌, ◌^◌, sym, ap, append_assoc, append-nil, ◌∙◌, Bool, true, false,
  List, [], ◌∷◌, ◌++◌, Option, none, some, arith, inl, inr, Option-cases, pluck, if◌then◌else◌,
}
use smf.Rpc.Future.{Future, Completion, ready, failed}
use smf.Rpc.Envelope.{Envelope, size}
use smf.Rpc.RecvContext.{Platform}
use smf.Server.Semaphore.{Semaphore}
use smf.Client.{
  Config, Client, Late, send_request, dispatch_write, do_reads, late_read, stop, connect,
  begin_reconnect,
}
use smf.Client.Ahead.{
  ahead, send_request-ahead, dispatch_write-ahead, stop-ahead, begin_reconnect-ahead, connect-ahead,
}
use smf.Client.Ahead.Reads.{do_reads-ahead, late_read-ahead}
use smf.Client.Fibers.{
  Fibers, Event, sends, has_memory, has_turn, written, reads, reads_late, stops, connects,
  begins_reconnect, reopens, take_memory, take_turn, end_write, end_read, end_late, entered,
  connect_idle, reopen_empty, step, run,
}
use smf.Client.Fibers.Memory.{units, units-step}

module _ {S O Q : Type 0} (p : Platform) (g : Config S O) (sem : Semaphore Q) where
  -- The second client has the writes of the first, and then perhaps more.
  abbrev pub Extends : Client S O → Client S O → Type 0
  Extends c d = (more : List Envelope) × (d.writes ≡ c.writes ++ more)

  Extends-same : (c d : Client S O) → d.writes ≡ c.writes → Extends c d
  Extends-same c d h = ([], h ∙ sym (append-nil c.writes))

  -- An operation that does not look at the writes that are ahead, extends them.
  Extends-operation :
      (f : Client S O → Client S O) (c : Client S O)
      → ((xs : List Envelope) (d : Client S O) → f (ahead p g xs d) ≡ ahead p g xs (f d))
      → Extends c (f c)
  Extends-operation f c h =
      let idle : Client S O = record c { writes = [] } in
      (
        (f idle).writes,
        ap (λ (ws : List Envelope). (f (record c { writes = ws })).writes)
              (sym (append-nil c.writes))
            ∙ ap (λ (d : Client S O). d.writes) (h c.writes idle),
      )

  abbrev IsLarge : Envelope → Fibers S O Q → Type 0
  IsLarge w s = (units p g sem s < size w) × (units p g sem s < 2 ^ 63)

  -- A write that waits for more than there is, waits on.
  not_granted :
      (w : Envelope) (ws : List Envelope) (s : Fibers S O Q)
      → IsLarge w s
      → take_memory p g sem (w ∷ ws) s ≡ none
  unfolding take_memory
  not_granted w ws s (large, small) =
      elim (Option-cases (sem.wait (size w) s.resources_available)) [
        | inl blocked ↦ rw (take_memory, blocked) refl
        | inr (q, free) ↦
            absurd (omega (arith, large, sem.count-wait (size w) s.resources_available q free))
      ]

  Extends-take_turn :
      (ws : List Envelope) (s s' : Fibers S O Q)
      → take_turn p g sem ws s ≡ some s'
      → Extends s.client s'.client
  unfolding take_turn
  Extends-take_turn [] s s' e = ground arith
  Extends-take_turn (w ∷ ws) s s' e = elim (Option-cases (sem.wait 1 s.serialize_writes)) [
    | inl blocked ↦ ground arith
    | inr (q, free) ↦ Extends-same s.client s'.client (
        ap (λ (t : Fibers S O Q). t.client.writes)
          (sym (some-injective _ _ (rw (take_turn, free) at e))))
  ]

  Extends-end_write :
      (broken : Bool) (r : Option (Envelope × List Envelope)) (s s' : Fibers S O Q)
      → end_write p g sem broken r s ≡ some s'
      → Extends s.client s'.client
  unfolding end_write
  Extends-end_write broken none s s' e = ground arith
  Extends-end_write broken (some (w, others)) s s' e =
      subst (λ (t : Fibers S O Q). Extends s.client t.client) (some-injective _ _ e)
        (Extends-operation (dispatch_write p g broken w) s.client
          (λ xs. dispatch_write-ahead p g xs broken w))

  Extends-end_read :
      (n : ℕ) (timed_out : Bool) (s s' : Fibers S O Q)
      → end_read p g sem n timed_out s ≡ some s'
      → Extends s.client s'.client
  unfolding end_read
  Extends-end_read zero timed_out s s' e = ground arith
  Extends-end_read (suc n) timed_out s s' e =
      subst (λ (t : Fibers S O Q). Extends s.client t.client) (some-injective _ _ e)
        (Extends-operation (do_reads p g timed_out) s.client
          (λ xs. do_reads-ahead p g xs timed_out))

  Extends-end_late :
      (n : ℕ) (same : Bool) (l : Late p g) (s s' : Fibers S O Q)
      → end_late p g sem n same l s ≡ some s'
      → Extends s.client s'.client
  unfolding end_late
  Extends-end_late zero same l s s' e = ground arith
  Extends-end_late (suc n) same l s s' e =
      subst (λ (t : Fibers S O Q). Extends s.client t.client) (some-injective _ _ e)
        (Extends-operation (late_read p g same l) s.client (λ xs. late_read-ahead p g xs same l))

  client-entered :
      (r : Completion × Client S O) (s : Fibers S O Q) → (entered p g sem r s).client ≡ r.1
  unfolding entered
  client-entered (failed x, c) s = refl
  client-entered (ready u, c) s = refl

  Extends-connect :
      (n : ℕ) (socket : Future (S × O)) (s s' : Fibers S O Q)
      → connect_idle p g sem n socket s ≡ some s'
      → Extends s.client s'.client
  unfolding connect_idle
  Extends-connect zero socket s s' e =
      subst (λ (t : Fibers S O Q). Extends s.client t.client) (some-injective _ _ e)
        (subst (Extends s.client) (sym (client-entered (connect p g socket s.client) s)) (
          Extends-operation (λ c. (connect p g socket c).1) s.client
            (λ xs. connect-ahead p g xs socket)))
  Extends-connect (suc n) socket s s' e = ground arith

  Extends-guarded :
      (refused : Bool) (s t s' : Fibers S O Q)
      → Extends s.client t.client
      → (if refused then none else some t) ≡ some s'
      → Extends s.client s'.client
  Extends-guarded true s t s' h e = ground arith
  Extends-guarded false s t s' h e =
      subst (λ (t : Fibers S O Q). Extends s.client t.client) (some-injective _ _ e) h

  Extends-step :
      (x : Event p g sem) (w : Envelope) (ws : List Envelope) (s s' : Fibers S O Q)
      → IsLarge w s
      → s.client.writes ≡ w ∷ ws
      → step p g sem x s ≡ some s'
      → Extends s.client s'.client
  unfolding step reopen_empty
  Extends-step (sends y) w ws s s' l h e =
      subst (λ (t : Fibers S O Q). Extends s.client t.client) (some-injective _ _ e)
        (Extends-operation (λ c. (send_request p g y c).1) s.client
          (λ xs. send_request-ahead p g xs y))
  Extends-step has_memory w ws s s' l h e =
      let refused : none ≡ some s' = sym (not_granted w ws s l) ∙ rw h at e in ground arith
  Extends-step has_turn w ws s s' l h e = Extends-take_turn s.for_turn s s' e
  Extends-step (written k broken) w ws s s' l h e =
      Extends-end_write broken (pluck k s.writing) s s' e
  Extends-step (reads timed_out) w ws s s' l h e = Extends-end_read s.reading timed_out s s' e
  Extends-step (reads_late same r) w ws s s' l h e = Extends-end_late s.late same r s s' e
  Extends-step stops w ws s s' l h e =
      Extends-guarded s.client.gate_closed s (record s { client = stop p g s.client }) s'
        (Extends-operation (stop p g) s.client (stop-ahead p g)) e
  Extends-step (connects socket) w ws s s' l h e = Extends-connect s.reading socket s s' e
  Extends-step begins_reconnect w ws s s' l h e =
      Extends-guarded s.client.gate_closed s
        (record s { client = begin_reconnect p g s.client; reconnecting = true }) s'
        (Extends-operation (begin_reconnect p g) s.client (begin_reconnect-ahead p g)) e
  Extends-step (reopens socket) w ws s s' l h e = ground arith

  -- In a client with fewer than 2 ^ 63 units of memory, when the request that is to be written next
  -- is larger than all of them, then after any further run it is still the one that is to be
  -- written next, and those behind it still wait.
  pub large_request_blocks :
      (xs : List (Event p g sem)) (w : Envelope) (ws : List Envelope) (s s' : Fibers S O Q)
      → units p g sem s < 2 ^ 63
      → units p g sem s < size w
      → s.client.writes ≡ w ∷ ws
      → run p g sem xs s ≡ some s'
      → (more : List Envelope) × (s'.client.writes ≡ w ∷ (ws ++ more))
  unfolding run
  large_request_blocks [] w ws s s' small large h e = (
    [],
    ap (λ (t : Fibers S O Q). t.client.writes) (sym (some-injective _ _ e))
        ∙ h
        ∙ ap (◌∷◌ w) (sym (append-nil ws)),
  )
  large_request_blocks (x ∷ xs) w ws s s' small large h e = elim (Option-cases (step p g sem x s)) [
    | inl stuck ↦ ground arith
    | inr (t, now) ↦
        let (first, here) = Extends-step x w ws s t (large, small) h now in
        let same : units p g sem t ≡ units p g sem s = units-step p g sem x s t small now in
        let (more, there) =
          large_request_blocks xs w (ws ++ first) t s' (rw same small) (rw same large)
            (here ∙ ap (λ (vs : List Envelope). vs ++ first) h) (rw (run, now) at e) in
        (first ++ more, there ∙ ap (◌∷◌ w) (append_assoc ws first more))
  ]
