-- ===== src/Client/Fibers/Seen.antt =====
-- The client as its calls see it while its fibers run, and what each event is to it.
use smf.Prelude.{
  ◌&&◌, ◌==◌, if◌then◌else◌, ℕ, zero, suc, ◌+◌, ◌≡◌, refl, sym, ap, append_assoc, ◌∙◌, Bool, true,
  false, List, [], ◌∷◌, ◌++◌, none, some, arith, inl, inr, Bool-cases, Option-cases, pluck, length,
}
use mathlib.Core.Path.{subst}
use mathlib.Core.Option.{some-injective}
use smf.Rpc.Future.{Future, Completion, ready, failed}
use smf.Rpc.Envelope.{Envelope, size}
use smf.Rpc.RecvContext.{Platform}
use smf.Server.Semaphore.{Semaphore}
use smf.Client.{Config, Client, Late, dispatch_write, do_reads, late_read, connect, reopen}
use smf.Client.Calls.{Call}
use smf.Client.Calls
use smf.Client.Ahead.{ahead, dispatch_write-ahead, connect-ahead}
use smf.Client.Ahead.Reads.{do_reads-ahead, late_read-ahead}
use smf.Client.Fibers.{
  fibers, Fibers, Event, sends, has_memory, has_turn, written, reads, reads_late, stops, connects,
  begins_reconnect, reopens, take_memory, take_turn, end_write, end_read, end_late, entered,
  connect_idle, no_write, reopen_empty,
}

module _ {S O Q : Type 0} (p : Platform) (g : Config S O) (sem : Semaphore Q) where
  -- The client as its calls see it: a write waits until it has been sent.
  abbrev pub seen : Fibers S O Q → Client S O
  seen s = ahead p g s.writing (ahead p g s.for_turn s.client)

  -- The calls that an event completes.
  abbrev pub calls_of : Event p g sem → List (Call p g)
  calls_of (sends e) = Calls.sends e ∷ []
  calls_of has_memory = []
  calls_of has_turn = []
  calls_of (written k broken) = Calls.writes_oldest broken ∷ []
  calls_of (reads timed_out) = Calls.reads timed_out ∷ []
  calls_of (reads_late same l) = Calls.reads_late same l ∷ []
  calls_of stops = Calls.stops ∷ []
  calls_of (connects socket) = Calls.connects socket ∷ []
  calls_of begins_reconnect = Calls.begins_reconnect ∷ []
  calls_of (reopens socket) = Calls.reopens socket ∷ []

  -- One unit of `serialize_writes_` is there: it is free, or a write holds it.
  abbrev pub IsSerial : Fibers S O Q → Type 0
  IsSerial s = sem.count s.serialize_writes + length s.writing ≡ 1

  -- A new client has its unit.
  pub fibers-IsSerial :
      (memory_avail_for_client : ℕ) (credentials : Bool)
      → IsSerial (fibers p g sem memory_avail_for_client credentials)
  unfolding fibers
  fibers-IsSerial memory_avail_for_client credentials =
      omega (arith, sem.count-initial 1 (omega arith))

  -- An operation that does not look at the writes, seen from the calls.
  pub seen_through :
      (f : Client S O → Client S O) (s : Fibers S O Q)
      → ((xs : List Envelope) (c : Client S O) → f (ahead p g xs c) ≡ ahead p g xs (f c))
      → f (seen s) ≡ seen (record s { client = f s.client })
  seen_through f s h =
      h s.writing (ahead p g s.for_turn s.client) ∙ ap (ahead p g s.writing) (h s.for_turn s.client)

  pub seen-take_memory :
      (ws : List Envelope) (s s' : Fibers S O Q)
      → take_memory p g sem ws (record s { client = record s.client { writes = ws } }) ≡ some s'
      → (seen (record s { client = record s.client { writes = ws } }) ≡ seen s')
        × (s'.serialize_writes ≡ s.serialize_writes)
        × (s'.writing ≡ s.writing)
  unfolding take_memory
  seen-take_memory [] s s' e = ground arith
  seen-take_memory (w ∷ ws) s s' e = elim (Option-cases (sem.wait (size w) s.resources_available)) [
    | inl blocked ↦ ground arith
    | inr (q, free) ↦
        let has : Fibers S O Q = record s {
          client = record s.client { writes = ws };
          resources_available = q;
          for_turn = s.for_turn ++ w ∷ [];
        } in
        let e' : some has ≡ some s' = rw (take_memory, free) at e in
        (
          ap (λ (vs : List Envelope). record s.client { writes = s.writing ++ vs })
                (sym (append_assoc s.for_turn (w ∷ []) ws))
              ∙ ap seen (some-injective _ _ e'),
          ap (λ (t : Fibers S O Q). t.serialize_writes) (sym (some-injective _ _ e')),
          ap (λ (t : Fibers S O Q). t.writing) (sym (some-injective _ _ e')),
        )
  ]

  -- Whoever holds the only unit is the only one.
  pub seen-take_turn :
      (ws vs : List Envelope) (s s' : Fibers S O Q)
      → IsSerial (record s { for_turn = ws; writing = vs })
      → take_turn p g sem ws (record s { for_turn = ws; writing = vs }) ≡ some s'
      → (seen (record s { for_turn = ws; writing = vs }) ≡ seen s') × IsSerial s'
  unfolding take_turn
  seen-take_turn [] vs s s' h e = ground arith
  seen-take_turn (w ∷ ws) vs s s' h e = elim (Option-cases (sem.wait 1 s.serialize_writes)) [
    | inl blocked ↦ ground arith
    | inr (q, free) ↦
        go vs q h (sem.count-wait 1 s.serialize_writes q free) (rw (take_turn, free) at e)
  ]
    where
      go :
          (vs : List Envelope) (q : Q)
          → sem.count s.serialize_writes + length vs ≡ 1
          → sem.count q + 1 ≡ sem.count s.serialize_writes
          → some (record s { for_turn = ws; serialize_writes = q; writing = w ∷ vs }) ≡ some s'
          → (seen (record s { for_turn = w ∷ ws; writing = vs }) ≡ seen s') × IsSerial s'
      go [] q h c e =
          subst
            (λ (t : Fibers S O Q).
              (seen (record s { for_turn = w ∷ ws; writing = [] }) ≡ seen t) × IsSerial t)
            (some-injective _ _ e) (refl, omega (arith, h, c))
      go (v ∷ vs) q h c e = absurd (omega (arith, h, c))

  pub seen-end_write :
      (k : ℕ) (broken : Bool) (vs : List Envelope) (s s' : Fibers S O Q)
      → IsSerial (record s { writing = vs })
      → end_write p g sem broken (pluck k vs) (record s { writing = vs }) ≡ some s'
      → (Calls.step p g (Calls.writes_oldest broken) (seen (record s { writing = vs })) ≡ seen s')
        × IsSerial s'
  unfolding end_write Calls.step
  seen-end_write k broken [] s s' h e = ground arith
  seen-end_write zero broken (v ∷ []) s s' h e =
      subst
        (λ (t : Fibers S O Q).
          (dispatch_write p g broken v (ahead p g s.for_turn s.client) ≡ seen t) × IsSerial t)
        (some-injective _ _ e)
        (
          dispatch_write-ahead p g s.for_turn broken v s.client,
          omega (arith, h, sem.count-signal 1 s.serialize_writes),
        )
  seen-end_write (suc k) broken (v ∷ []) s s' h e = ground arith
  seen-end_write k broken (v ∷ w ∷ vs) s s' h e = absurd (omega (arith, h))

  -- What becomes of a client changes neither its turns nor who has one.
  abbrev pub Completes : List (Call p g) → Fibers S O Q → Fibers S O Q → Type 0
  Completes calls s s' =
      (Calls.run p g calls (seen s) ≡ seen s')
      × (s'.serialize_writes ≡ s.serialize_writes)
      × (s'.writing ≡ s.writing)

  pub Completes-IsSerial :
      (calls : List (Call p g)) (s s' : Fibers S O Q)
      → IsSerial s
      → Completes calls s s'
      → (Calls.run p g calls (seen s) ≡ seen s') × IsSerial s'
  Completes-IsSerial calls s s' h (a, b, c) = (a, rw (b, c) h)

  pub Completes-end_read :
      (n : ℕ) (timed_out : Bool) (s s' : Fibers S O Q)
      → end_read p g sem n timed_out s ≡ some s'
      → Completes (Calls.reads timed_out ∷ []) s s'
  unfolding end_read Calls.run Calls.step
  Completes-end_read zero timed_out s s' e = ground arith
  Completes-end_read (suc n) timed_out s s' e =
      subst (Completes (Calls.reads timed_out ∷ []) s) (some-injective _ _ e) (
        seen_through (do_reads p g timed_out) s (λ xs. do_reads-ahead p g xs timed_out),
        refl,
        refl,
      )

  pub Completes-end_late :
      (n : ℕ) (same : Bool) (l : Late p g) (s s' : Fibers S O Q)
      → end_late p g sem n same l s ≡ some s'
      → Completes (Calls.reads_late same l ∷ []) s s'
  unfolding end_late Calls.run Calls.step
  Completes-end_late zero same l s s' e = ground arith
  Completes-end_late (suc n) same l s s' e =
      subst (Completes (Calls.reads_late same l ∷ []) s) (some-injective _ _ e)
        (seen_through (late_read p g same l) s (λ xs. late_read-ahead p g xs same l), refl, refl)

  -- The fiber that a connection starts is not among the writes.
  Completes-entered :
      (r : Completion × Client S O) (s : Fibers S O Q) (reconnecting : Bool)
      → let s' = record (entered p g sem r s) { reconnecting = reconnecting } in
        (seen s' ≡ seen (record s { client = r.1 }))
        × (s'.serialize_writes ≡ s.serialize_writes)
        × (s'.writing ≡ s.writing)
  unfolding entered
  Completes-entered (failed x, c) s reconnecting = (refl, refl, refl)
  Completes-entered (ready u, c) s reconnecting = (refl, refl, refl)

  pub Completes-connect :
      (n : ℕ) (socket : Future (S × O)) (s s' : Fibers S O Q)
      → connect_idle p g sem n socket s ≡ some s'
      → Completes (Calls.connects socket ∷ []) s s'
  unfolding connect_idle Calls.run Calls.step
  Completes-connect zero socket s s' e =
      subst (Completes (Calls.connects socket ∷ []) s) (some-injective _ _ e) (
        let (a, b, c) = Completes-entered (connect p g socket s.client) s s.reconnecting in
        (
          seen_through (λ d. (connect p g socket d).1) s (λ xs. connect-ahead p g xs socket)
              ∙ sym a,
          b,
          c,
        ))
  Completes-connect (suc n) socket s s' e = ground arith

  pub Completes-reopen :
      (ws vs : List Envelope) (socket : Future (S × O)) (s s' : Fibers S O Q)
      → reopen_empty p g sem socket (record s { writing = ws; for_turn = vs }) ≡ some s'
      → Completes (Calls.reopens socket ∷ []) (record s { writing = ws; for_turn = vs }) s'
  unfolding reopen_empty Calls.run Calls.step
  Completes-reopen [] [] socket s s' e =
      elim (Bool-cases (no_write p g sem s.client.writes && s.reading == 0 && s.reconnecting)) [
        | inl empty ↦
            let s₀ : Fibers S O Q = record s { writing = []; for_turn = [] } in
            let (a, b, c) = Completes-entered (reopen p g socket s.client) s₀ false in
            subst (Completes (Calls.reopens socket ∷ []) s₀) (some-injective _ _ (rw empty at e))
              (sym a, b, c)
        | inr busy ↦ ground arith
      ]
  Completes-reopen [] (v ∷ vs) socket s s' e = ground arith
  Completes-reopen (w ∷ ws) vs socket s s' e = ground arith

  pub Completes-guarded :
      (refused : Bool) (calls : List (Call p g)) (s t s' : Fibers S O Q)
      → Completes calls s t
      → (if refused then none else some t) ≡ some s'
      → Completes calls s s'
  Completes-guarded true calls s t s' h e = ground arith
  Completes-guarded false calls s t s' h e = subst (Completes calls s) (some-injective _ _ e) h
