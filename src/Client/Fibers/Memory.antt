-- ===== src/Client/Fibers/Memory.antt =====
-- The bytes that a client lets be written at once, `resources_available` of
-- src/include/smf/rpc_connection_limits.h.
use mathlib.Core.Option.{some-injective}
use smf.Prelude.{
  ℕ, zero, suc, ◌+◌, ◌≡◌, refl, ◌<◌, ◌^◌, sym, ap, ◌∙◌, Bool, true, false, List, [], ◌∷◌, Option,
  none, some, arith, inl, inr, Bool-cases, Option-cases, pluck, sum_by, sum_by-pluck, sum_by-append,
  if◌then◌else◌, ◌&&◌,
}
use smf.Rpc.Future.{Future, Completion, ready, failed}
use smf.Rpc.Envelope.{Envelope, size}
use smf.Rpc.RecvContext.{Platform}
use smf.Server.Semaphore.{Semaphore}
use smf.Client.{Config, Client, Late, stop, connect, reopen, begin_reconnect}
use smf.Client.Fibers.{
  Fibers, Event, sends, has_memory, has_turn, written, reads, reads_late, stops, connects,
  begins_reconnect, reopens, take_memory, take_turn, end_write, end_read, end_late, entered,
  connect_idle, is_empty, reopen_empty, step, run,
}

module _ {S O Q : Type 0} (p : Platform) (g : Config S O) (sem : Semaphore Q) where
  -- The units that are free, and those that writes hold.
  abbrev pub units : Fibers S O Q → ℕ
  units s = sem.count s.resources_available + sum_by size s.for_turn + sum_by size s.writing

  units-take_memory :
      (ws : List Envelope) (s s' : Fibers S O Q)
      → take_memory p g sem ws s ≡ some s'
      → units s' ≡ units s
  unfolding take_memory
  units-take_memory [] s s' e = ground arith
  units-take_memory (w ∷ ws) s s' e =
      elim (Option-cases (sem.wait (size w) s.resources_available)) [
        | inl blocked ↦ ground arith
        | inr (q, free) ↦ ground (
          arith,
          sem.count-wait (size w) s.resources_available q,
          sum_by-append size s.for_turn (w ∷ []),
        )
      ]

  units-take_turn :
      (ws : List Envelope) (s s' : Fibers S O Q)
      → take_turn p g sem ws (record s { for_turn = ws }) ≡ some s'
      → units s' ≡ units (record s { for_turn = ws })
  unfolding take_turn
  units-take_turn [] s s' e = ground arith
  units-take_turn (w ∷ ws) s s' e = elim (Option-cases (sem.wait 1 s.serialize_writes)) [
    | inl blocked ↦ ground arith
    | inr (q, free) ↦ ground arith
  ]

  units-end_write :
      (k : ℕ) (broken : Bool) (r : Option (Envelope × List Envelope)) (s s' : Fibers S O Q)
      → units s < 2 ^ 63
      → pluck k s.writing ≡ r
      → end_write p g sem broken r s ≡ some s'
      → units s' ≡ units s
  unfolding end_write
  units-end_write k broken none s s' h found e = ground arith
  units-end_write k broken (some (w, others)) s s' h found e = ground (
    arith,
    sum_by-pluck size k s.writing w others,
    sem.count-signal (size w) s.resources_available,
  )

  units-end_read :
      (n : ℕ) (timed_out : Bool) (s s' : Fibers S O Q)
      → end_read p g sem n timed_out s ≡ some s'
      → units s' ≡ units s
  unfolding end_read
  units-end_read zero timed_out s s' e = ground arith
  units-end_read (suc n) timed_out s s' e = ap units (sym (some-injective _ _ e))

  units-end_late :
      (n : ℕ) (same : Bool) (l : Late p g) (s s' : Fibers S O Q)
      → end_late p g sem n same l s ≡ some s'
      → units s' ≡ units s
  unfolding end_late
  units-end_late zero same l s s' e = ground arith
  units-end_late (suc n) same l s s' e = ap units (sym (some-injective _ _ e))

  units-entered :
      (r : Completion × Client S O) (s : Fibers S O Q) → units (entered p g sem r s) ≡ units s
  unfolding entered
  units-entered (failed x, c) s = refl
  units-entered (ready u, c) s = refl

  units-connect :
      (n : ℕ) (socket : Future (S × O)) (s s' : Fibers S O Q)
      → connect_idle p g sem n socket s ≡ some s'
      → units s' ≡ units s
  unfolding connect_idle
  units-connect zero socket s s' e =
      ap units (sym (some-injective _ _ e)) ∙ units-entered (connect p g socket s.client) s
  units-connect (suc n) socket s s' e = ground arith

  units-guarded :
      (refused : Bool) (s t s' : Fibers S O Q)
      → units t ≡ units s
      → (if refused then none else some t) ≡ some s'
      → units s' ≡ units s
  units-guarded true s t s' h e = ground arith
  units-guarded false s t s' h e = ap units (sym (some-injective _ _ e)) ∙ h

  units-reopen :
      (socket : Future (S × O)) (s s' : Fibers S O Q)
      → reopen_empty p g sem socket s ≡ some s'
      → units s' ≡ units s
  unfolding reopen_empty
  units-reopen socket s s' e = elim (Bool-cases (is_empty p g sem s && s.reconnecting)) [
    | inl empty ↦
        ap units (sym (some-injective _ _ (rw (reopen_empty, empty) at e)))
        ∙ units-entered (reopen p g socket s.client) s
    | inr busy ↦ ground arith
  ]

  pub units-step :
      (x : Event p g sem) (s s' : Fibers S O Q)
      → units s < 2 ^ 63
      → step p g sem x s ≡ some s'
      → units s' ≡ units s
  unfolding step
  units-step (sends x) s s' h e = ap units (sym (some-injective _ _ e))
  units-step has_memory s s' h e = units-take_memory s.client.writes s s' e
  units-step has_turn s s' h e = units-take_turn s.for_turn s s' e
  units-step (written k broken) s s' h e =
      units-end_write k broken (pluck k s.writing) s s' h refl e
  units-step (reads timed_out) s s' h e = units-end_read s.reading timed_out s s' e
  units-step (reads_late same l) s s' h e = units-end_late s.late same l s s' e
  units-step stops s s' h e =
      units-guarded s.client.gate_closed s (record s { client = stop p g s.client }) s' refl e
  units-step (connects socket) s s' h e = units-connect s.reading socket s s' e
  units-step begins_reconnect s s' h e =
      units-guarded s.client.gate_closed s
        (record s { client = begin_reconnect p g s.client; reconnecting = true }) s' refl e
  units-step (reopens socket) s s' h e = units-reopen socket s s' e

  -- Over any run of a client that starts with fewer than 2 ^ 63 units, every unit of memory is free
  -- or held by a write that has not ended.
  pub units-run :
      (xs : List (Event p g sem)) (s s' : Fibers S O Q)
      → units s < 2 ^ 63
      → run p g sem xs s ≡ some s'
      → units s' ≡ units s
  unfolding run
  units-run [] s s' h e = ap units (sym (some-injective _ _ e))
  units-run (x ∷ xs) s s' h e = elim (Option-cases (step p g sem x s)) [
    | inl stuck ↦ ground arith
    | inr (t, now) ↦ ground (arith, units-step x s t h now, units-run xs t s')
  ]
