-- ===== src/Client/Fibers/Refines.antt =====
-- The fibers of a client, with their two semaphores, against the calls of its operations one after
-- another.
use smf.Prelude.{◌≡◌, refl, ap, ◌∙◌, true, List, [], ◌∷◌, ◌++◌, some, arith, inl, inr, Option-cases}
use mathlib.Core.Path.{subst}
use mathlib.Core.Option.{some-injective}
use smf.Rpc.RecvContext.{Platform}
use smf.Server.Semaphore.{Semaphore}
use smf.Client.{Config, Client, send_request, stop, begin_reconnect}
use smf.Client.Calls.{Call}
use smf.Client.Calls
use smf.Client.Ahead.{send_request-ahead, stop-ahead, begin_reconnect-ahead}
use smf.Client.Fibers.{
  Fibers, Event, sends, has_memory, has_turn, written, reads, reads_late, stops, connects,
  begins_reconnect, reopens, step, run,
}
use smf.Client.Fibers.Seen.{
  seen, calls_of, IsSerial, Completes, seen_through, seen-take_memory, seen-take_turn,
  seen-end_write, Completes-IsSerial, Completes-end_read, Completes-end_late, Completes-connect,
  Completes-reopen, Completes-guarded,
}

module _ {S O Q : Type 0} (p : Platform) (g : Config S O) (sem : Semaphore Q) where
  -- Every event completes its calls.
  step-Completes :
      (x : Event p g sem) (s s' : Fibers S O Q)
      → IsSerial p g sem s
      → step p g sem x s ≡ some s'
      → (Calls.run p g (calls_of p g sem x) (seen p g sem s) ≡ seen p g sem s')
        × IsSerial p g sem s'
  unfolding step Calls.run Calls.step
  step-Completes (sends x) s s' h e = Completes-IsSerial p g sem (Calls.sends x ∷ []) s s' h (
      subst (Completes p g sem (Calls.sends x ∷ []) s) (some-injective _ _ e) (
        seen_through p g sem (λ c. (send_request p g x c).1) s (λ xs. send_request-ahead p g xs x),
        refl,
        refl,
      ))
  step-Completes has_memory s s' h e =
      Completes-IsSerial p g sem [] s s' h (seen-take_memory p g sem s.client.writes s s' e)
  step-Completes has_turn s s' h e = seen-take_turn p g sem s.for_turn s.writing s s' h e
  step-Completes (written k broken) s s' h e = seen-end_write p g sem k broken s.writing s s' h e
  step-Completes (reads timed_out) s s' h e =
      Completes-IsSerial p g sem (Calls.reads timed_out ∷ []) s s' h
        (Completes-end_read p g sem s.reading timed_out s s' e)
  step-Completes (reads_late same l) s s' h e =
      Completes-IsSerial p g sem (Calls.reads_late same l ∷ []) s s' h
        (Completes-end_late p g sem s.late same l s s' e)
  step-Completes stops s s' h e = Completes-IsSerial p g sem (Calls.stops ∷ []) s s' h (
      Completes-guarded p g sem s.client.gate_closed (Calls.stops ∷ []) s
        (record s { client = stop p g s.client }) s'
        (seen_through p g sem (stop p g) s (stop-ahead p g), refl, refl) e)
  step-Completes (connects socket) s s' h e =
      Completes-IsSerial p g sem (Calls.connects socket ∷ []) s s' h
        (Completes-connect p g sem s.reading socket s s' e)
  step-Completes begins_reconnect s s' h e =
      Completes-IsSerial p g sem (Calls.begins_reconnect ∷ []) s s' h (
        Completes-guarded p g sem s.client.gate_closed (Calls.begins_reconnect ∷ []) s
          (record s { client = begin_reconnect p g s.client; reconnecting = true }) s'
          (seen_through p g sem (begin_reconnect p g) s (begin_reconnect-ahead p g), refl, refl) e)
  step-Completes (reopens socket) s s' h e =
      Completes-IsSerial p g sem (Calls.reopens socket ∷ []) s s' h
        (Completes-reopen p g sem s.writing s.for_turn socket s s' e)

  abbrev pub all_calls : List (Event p g sem) → List (Call p g)
  all_calls [] = []
  all_calls (x ∷ xs) = calls_of p g sem x ++ all_calls xs

  run-append :
      (xs ys : List (Call p g)) (c : Client S O)
      → Calls.run p g (xs ++ ys) c ≡ Calls.run p g ys (Calls.run p g xs c)
  unfolding Calls.run
  run-append [] ys c = refl
  run-append (x ∷ xs) ys c = run-append xs ys (Calls.step p g x c)

  -- Over any interleaving of the fibers of a client whose `serialize_writes_` has one unit in all,
  -- with its writes waiting for memory and for their turn, its reads, the reads that timeouts leave
  -- behind, its stops, connects and the two parts of its reconnects, what becomes of the client is
  -- what its operations make of it one after another, each write being the oldest that has not been
  -- sent, and one unit is still there in all.
  pub run-refines :
      (xs : List (Event p g sem)) (s s' : Fibers S O Q)
      → IsSerial p g sem s
      → run p g sem xs s ≡ some s'
      → (Calls.run p g (all_calls xs) (seen p g sem s) ≡ seen p g sem s') × IsSerial p g sem s'
  unfolding run Calls.run
  run-refines [] s s' h e =
      subst (λ (t : Fibers S O Q). (seen p g sem s ≡ seen p g sem t) × IsSerial p g sem t)
        (some-injective _ _ e) (refl, h)
  run-refines (x ∷ xs) s s' h e = elim (Option-cases (step p g sem x s)) [
    | inl stuck ↦ ground arith
    | inr (t, now) ↦
        let (calls, serial) = step-Completes x s t h now in
        let (rest, serial') = run-refines xs t s' serial (rw (run, now) at e) in
        (
          run-append (calls_of p g sem x) (all_calls xs) (seen p g sem s)
              ∙ ap (Calls.run p g (all_calls xs)) calls
              ∙ rest,
          serial',
        )
  ]
