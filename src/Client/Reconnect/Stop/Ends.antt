-- ===== src/Client/Reconnect/Stop/Ends.antt =====
-- `stop` of a client that reconnects in the background comes to its end.
use smf.Prelude.{
  ℕ, zero, suc, ◌+◌, ◌≡◌, refl, sym, ◌∙◌, Bool, true, false, ◌&&◌, List, [], ◌∷◌, Option, none,
  some, arith, inl, inr, ◌==◌, sum_by, Bool-cases, Option-cases,
}
use mathlib.Core.Path.{subst}
use mathlib.Core.Option.{some-injective}
use smf.Rpc.Future.{Completion, ready, failed, remote_connection_error}
use smf.Client.Reconnect.{Reconnecting, attempted, pauses}
use smf.Client.Reconnect.Stop.{
  Retrying, Event, connects, reconnected, wakes, breaks, stops, client_stops, connect_once,
  succeeded, after_attempt, end_attempt, wake, step, run,
}

abbrev ends_attempt : Event → ℕ
ends_attempt (reconnected random outcome) = 1
ends_attempt _ = 0

abbrev ends_pause : Event → ℕ
ends_pause wakes = 1
ends_pause _ = 0

-- How many attempts and pauses end.
abbrev pub attempts_ended : List Event → ℕ
attempts_ended = sum_by ends_attempt

abbrev pub pauses_ended : List Event → ℕ
pauses_ended = sum_by ends_pause

-- A closed gate lets nobody in.
abbrev Leaves : List Event → Retrying → Retrying → Type 0
Leaves xs s s' =
    (s'.state.gate_closed ≡ true)
    × (s'.connecting + attempts_ended xs ≡ s.connecting)
    × (s'.sleeping + pauses_ended xs ≡ s.sleeping)

connect_once-closed : (s : Retrying) → s.state.gate_closed ≡ true → connect_once s ≡ s
unfolding connect_once
connect_once-closed s h = ground arith

-- With the gate closed an attempt ends without a pause.
attempted-closed :
    (closed : Bool) (random : ℕ) (outcome : Completion) (r : Reconnecting)
    → closed ≡ true
    → ((attempted closed random outcome r).0 ≡ none)
      × ((attempted closed random outcome r).1.gate_closed ≡ true)
unfolding attempted pauses
attempted-closed true random (ready u) r h = (refl, refl)
attempted-closed true random (failed x) r h = (refl, refl)
attempted-closed false random outcome r h = ground arith

after_attempt-Leaves :
    (n random : ℕ) (outcome : Completion) (valid : Bool) (r : Option ℕ × Reconnecting)
    (s : Retrying)
    → r.0 ≡ none
    → r.1.gate_closed ≡ true
    → Leaves
        (reconnected random outcome ∷ [])
        (record s { connecting = suc n })
        (after_attempt n valid r s)
unfolding after_attempt
after_attempt-Leaves n random outcome valid (none, r) s h c = (c, omega arith, omega arith)
after_attempt-Leaves n random outcome valid (some ms, r) s h c = ground arith

end_attempt-Leaves :
    (n random : ℕ) (outcome : Completion) (s s' : Retrying)
    → s.state.gate_closed ≡ true
    → end_attempt n random outcome (record s { connecting = n }) ≡ some s'
    → Leaves (reconnected random outcome ∷ []) (record s { connecting = n }) s'
unfolding end_attempt pauses
end_attempt-Leaves zero random outcome s s' h e = ground arith
end_attempt-Leaves (suc n) random outcome s s' h e =
    let (no_pause, closed) = attempted-closed s.state.gate_closed random outcome s.state h in
    subst (Leaves (reconnected random outcome ∷ []) (record s { connecting = suc n }))
      (some-injective _ _ e)
      (after_attempt-Leaves n random outcome (succeeded outcome) _ (record s { connecting = suc n })
        no_pause closed)

wake-Leaves :
    (n : ℕ) (s s' : Retrying)
    → s.state.gate_closed ≡ true
    → wake n (record s { sleeping = n }) ≡ some s'
    → Leaves (wakes ∷ []) (record s { sleeping = n }) s'
unfolding wake
wake-Leaves zero s s' h e = ground arith
wake-Leaves (suc n) s s' h e =
    subst (Leaves (wakes ∷ []) (record s { sleeping = suc n }))
      (sym (connect_once-closed (record s { sleeping = n }) h) ∙ some-injective _ _ e)
      (h, omega arith, omega arith)

step-Leaves :
    (x : Event) (s s' : Retrying)
    → s.state.gate_closed ≡ true
    → step x s ≡ some s'
    → Leaves (x ∷ []) s s'
unfolding step
step-Leaves connects s s' h e =
    subst (Leaves (connects ∷ []) s) (sym (connect_once-closed s h) ∙ some-injective _ _ e)
      (h, omega arith, omega arith)
step-Leaves (reconnected random outcome) s s' h e =
    end_attempt-Leaves s.connecting random outcome s s' h e
step-Leaves wakes s s' h e = wake-Leaves s.sleeping s s' h e
step-Leaves breaks s s' h e =
    subst (Leaves (breaks ∷ []) s) (some-injective _ _ e) (h, omega arith, omega arith)
step-Leaves stops s s' h e = ground arith
step-Leaves client_stops s s' h e =
    elim (Bool-cases (s.state.gate_closed && (s.connecting == 0 && s.sleeping == 0))) [
      | inl empty ↦
          subst (Leaves (client_stops ∷ []) s) (some-injective _ _ (rw (step, empty) at e))
            (h, omega arith, omega arith)
      | inr busy ↦ ground arith
    ]

run-Leaves :
    (xs : List Event) (s s' : Retrying)
    → s.state.gate_closed ≡ true
    → run xs s ≡ some s'
    → Leaves xs s s'
unfolding run
run-Leaves [] s s' h e = subst (Leaves [] s) (some-injective _ _ e) (h, omega arith, omega arith)
run-Leaves (x ∷ xs) s s' h e = elim (Option-cases (step x s)) [
  | inl stuck ↦ ground arith
  | inr (t, now) ↦
      let (closed, attempts, pauses) = step-Leaves x s t h now in
      let (closed', attempts', pauses') = run-Leaves xs t s' closed (rw (run, now) at e) in
      (closed', omega (arith, attempts, attempts'), omega (arith, pauses, pauses'))
]

-- Each attempt and each pause ends, and the client is stopped.
abbrev pub ending : (attempts pauses : ℕ) → List Event
ending zero zero = client_stops ∷ []
ending zero (suc m) = wakes ∷ ending zero m
ending (suc n) m = reconnected 0 (failed remote_connection_error) ∷ ending n m

abbrev Stops : ℕ → ℕ → Retrying → Type 0
Stops n m s = (t : Retrying) × (run (ending n m) s ≡ some t) × (t.client_stopped ≡ true)

ending-Stops :
    (n m : ℕ) (s : Retrying)
    → s.state.gate_closed ≡ true
    → Stops n m (record s { connecting = n; sleeping = m })
unfolding run step pauses
ending-Stops zero zero s h = (
  record s { connecting = 0; sleeping = 0; conn_valid = false; client_stopped = true },
  rw h refl,
  refl,
)
ending-Stops zero (suc m) s h =
    subst (Stops zero m) (sym (connect_once-closed (record s { connecting = 0; sleeping = m }) h))
      (ending-Stops zero m s h)
ending-Stops (suc n) m s h = go s.state.gate_closed h (ending-Stops n m (after true) refl)
  where
    after : Bool → Retrying
    after closed = record s {
      state = record s.state { gate_closed = closed };
      conn_valid = false;
      connecting = n;
      sleeping = m;
    }

    go :
        (closed : Bool)
        → closed ≡ true
        → Stops n m (after true)
        → Stops n m (
            after_attempt n false
              (pauses closed 0 s.state)
              (record s { connecting = suc n; sleeping = m }))
    go true c rest = rest
    go false c rest = absurd (ground (arith, c))

-- From when `stop` of a reconnecting client has closed its gate, whatever calls, losses of the
-- connection and ends of attempts and pauses follow, the attempts that are under way and those that
-- have ended are together as many as before, and the pauses too, so that none of either begins; and
-- `stop` can still end: once each attempt has failed and each pause is over, the client is stopped.
pub stop_ends :
    (xs : List Event) (s s' : Retrying)
    → s.state.gate_closed ≡ true
    → run xs s ≡ some s'
    → (s'.connecting + attempts_ended xs ≡ s.connecting)
      × (s'.sleeping + pauses_ended xs ≡ s.sleeping)
      × ((t : Retrying) × (run (ending s'.connecting s'.sleeping) s' ≡ some t)
          × (t.client_stopped ≡ true))
stop_ends xs s s' h e =
    let (closed, attempts, pauses) = run-Leaves xs s s' h e in
    (attempts, pauses, ending-Stops s'.connecting s'.sleeping s' closed)
