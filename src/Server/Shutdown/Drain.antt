-- ===== src/Server/Shutdown/Drain.antt =====
-- Once the gate is closed, the requests in it only leave, and `stop` can finish.
use mathlib.Core.Option.{some-injective}
use smf.Prelude.{
  ℕ, zero, suc, ◌+◌, ◌≡◌, refl, sym, ap, ◌∙◌, Bool, true, false, List, [], ◌∷◌, Option, none, some,
  inl, inr, arith, pluck, Bool-cases, Option-cases,
}
use smf.Rpc.Connection.{Connection}
use smf.Rpc.RecvContext.{Platform, RecvContext, parse_payload}
use smf.Server.Semaphore.{Semaphore}
use smf.Server.Dispatch.{Config}
use smf.Server.Machine
use smf.Server.Machine.{
  Server, Event, Parse, Job, accepted, loop_tested, header_read, header_failed, granted, body_read,
  body_failed, served, destroyed, read_body,
}
use smf.Server.Machine.Memory.{leave_by_exception-SameUnits}
use smf.Server.Machine.Jobs.{jobs-kept, jobs-served}
use smf.Server.Shutdown.{
  Phase, serving, aborting, draining, stopping_admin, stopped, Stopping, Gates, StopEvent, happens,
  accept_failed, stop_called, inputs_shut, gate_left, admin_stopped, in_gate, refused, read_late,
  late_body, late, with_server, serve_event, shut, leave_gate, stop_admin, call_stop, step,
}

in_gate-pluck :
    (k : ℕ) (js : List Job) (j : Job) (rest : List Job)
    → pluck k js ≡ some (j, rest)
    → in_gate js ≡ in_gate (j ∷ []) + in_gate rest
unfolding in_gate
in_gate-pluck k [] j rest e = ground arith
in_gate-pluck zero (i ∷ js) j rest e = ground arith
in_gate-pluck (suc k) (i ∷ js) j rest e = elim (Option-cases (pluck k js)) [
  | inl missing ↦ ground arith
  | inr ((z, zs), found) ↦ ground (arith, in_gate-pluck k js z zs found)
]

-- The gate is closed.
abbrev pub IsClosed : Phase → Type 0
IsClosed serving = ⊥
IsClosed aborting = ⊥
IsClosed _ = Unit

-- How many requests leave the gate in an event: the one that is served, if it had entered.
pub leaves_by : Option (Job × List Job) → ℕ
leaves_by none = 0
leaves_by (some (j, rest)) = in_gate (j ∷ [])

module _ {S O Q : Type 0} (p : Platform) (g : Config S O) (sem : Semaphore Q)
    (gates : Gates S) where
  abbrev leaves_of : Event S O → Server S O Q → ℕ
  leaves_of (served k m) s = leaves_by (pluck k s.jobs)
  leaves_of _ s = 0

  abbrev pub leaves : StopEvent S O → Stopping S O Q → ℕ
  leaves (happens e) s = leaves_of e s.server
  leaves _ s = 0

  in_gate-read_late :
      (r : Option RecvContext) (b : Parse) (s : Server S O Q)
      → (parse_payload p g.io b.header (s.connections b.id)).0 ≡ r
      → in_gate (read_late p g sem gates r b s).jobs ≡ in_gate s.jobs
  unfolding read_late read_body refused in_gate
  in_gate-read_late none b s e = rw e refl
  in_gate-read_late (some ctx) b s e = elim (Bool-cases gates.with_gate_throws) [
    | inl throws ↦ rw throws (ap in_gate (leave_by_exception-SameUnits p g sem b.id _).same_jobs)
    | inr fails ↦ rw fails refl
  ]

  in_gate-late_body :
      (r : Option (Parse × List Parse)) (s s' : Server S O Q)
      → late_body p g sem gates r s ≡ some s'
      → in_gate s'.jobs ≡ in_gate s.jobs
  unfolding late_body
  in_gate-late_body none s s' e = cc
  in_gate-late_body (some (b, rest)) s s' e =
      ap (λ (t : Server S O Q). in_gate t.jobs) (sym (some-injective _ _ e))
      ∙ in_gate-read_late _ b (record s { parses = rest }) refl

  in_gate-served :
      (k : ℕ) (m : Connection S O → Connection S O) (s s' : Server S O Q)
      → Machine.step p g sem (served k m) s ≡ some s'
      → in_gate s'.jobs + leaves_by (pluck k s.jobs) ≡ in_gate s.jobs
  unfolding leaves_by
  in_gate-served k m s s' e =
      let (j, rest, found, left, fibers) = jobs-served p g sem k m s s' e in
      rw (found, left) (omega (arith, in_gate-pluck k s.jobs j rest found))

  in_gate-late :
      (e : Event S O) (s s' : Server S O Q)
      → late p g sem gates e s ≡ some s'
      → in_gate s'.jobs + leaves_of e s ≡ in_gate s.jobs
  unfolding late
  in_gate-late (accepted i o) s s' done = cc
  in_gate-late (loop_tested id) s s' done =
      omega (arith, ap in_gate (jobs-kept p g sem (loop_tested id) s s' refl done))
  in_gate-late (header_read id) s s' done =
      omega (arith, ap in_gate (jobs-kept p g sem (header_read id) s s' refl done))
  in_gate-late (header_failed id) s s' done =
      omega (arith, ap in_gate (jobs-kept p g sem (header_failed id) s s' refl done))
  in_gate-late (granted id) s s' done =
      omega (arith, ap in_gate (jobs-kept p g sem (granted id) s s' refl done))
  in_gate-late (body_read k) s s' done =
      omega (arith, in_gate-late_body (pluck k s.parses) s s' done)
  in_gate-late (body_failed k) s s' done =
      omega (arith, ap in_gate (jobs-kept p g sem (body_failed k) s s' refl done))
  in_gate-late (served k m) s s' done = in_gate-served k m s s' done
  in_gate-late (destroyed id) s s' done =
      omega (arith, ap in_gate (jobs-kept p g sem (destroyed id) s s' refl done))

  pub closed-late :
      (f : Phase) (b : Bool) (e : Event S O) (s : Server S O Q)
      → IsClosed f
      → serve_event p g sem gates f b e s ≡ late p g sem gates e s
  unfolding serve_event
  closed-late serving b e s h = absurd h
  closed-late aborting b e s h = absurd h
  closed-late draining b e s h = refl
  closed-late stopping_admin b e s h = refl
  closed-late stopped b e s h = refl

  -- What an event does once the gate is closed.
  abbrev pub Drains : ℕ → Stopping S O Q → Stopping S O Q → Type 0
  Drains n s s' = (in_gate s'.server.jobs + n ≡ in_gate s.server.jobs) × IsClosed s'.phase

  happens-Drains :
      (e : Event S O) (r : Option (Server S O Q)) (s s' : Stopping S O Q)
      → IsClosed s.phase
      → late p g sem gates e s.server ≡ r
      → with_server p g sem gates r s ≡ some s'
      → Drains (leaves_of e s.server) s s'
  happens-Drains e none s s' h q done = cc
  happens-Drains e (some t) s s' h q done = ground (arith, in_gate-late e s.server t q)

  gate_left-Drains :
      (f : Phase) (s s' : Stopping S O Q) → leave_gate p g sem gates f s ≡ some s' → Drains 0 s s'
  unfolding leave_gate
  gate_left-Drains draining s s' done = ground arith
  gate_left-Drains serving s s' done = cc
  gate_left-Drains _ s s' done = cc

  admin_stopped-Drains :
      (f : Phase) (s s' : Stopping S O Q) → stop_admin p g sem gates f s ≡ some s' → Drains 0 s s'
  unfolding stop_admin
  admin_stopped-Drains stopping_admin s s' done = ground arith
  admin_stopped-Drains serving s s' done = cc
  admin_stopped-Drains _ s s' done = cc

  call_stop-Drains :
      (f : Phase) (s s' : Stopping S O Q)
      → IsClosed f
      → call_stop p g sem gates f s ≡ some s'
      → Drains 0 s s'
  unfolding call_stop
  call_stop-Drains serving s s' h done = absurd h
  call_stop-Drains aborting s s' h done = cc
  call_stop-Drains _ s s' h done = cc

  shut-Drains :
      (b : Bool) (f : Phase) (s s' : Stopping S O Q)
      → IsClosed f
      → shut p g sem gates b f s ≡ some s'
      → Drains 0 s s'
  unfolding shut
  shut-Drains false aborting s s' h done = absurd h
  shut-Drains true f s s' h done = cc
  shut-Drains false serving s s' h done = cc
  shut-Drains false _ s s' h done = cc

  pub step-Drains :
      (e : StopEvent S O) (s s' : Stopping S O Q)
      → IsClosed s.phase
      → step p g sem gates e s ≡ some s'
      → Drains (leaves e s) s s'
  unfolding step
  step-Drains (happens e) s s' h done =
      happens-Drains e (late p g sem gates e s.server) s s' h refl
        (rw (← (closed-late s.phase s.accepting e s.server h)) done)
  step-Drains accept_failed s s' h done = ground arith
  step-Drains stop_called s s' h done = call_stop-Drains s.phase s s' h done
  step-Drains inputs_shut s s' h done = shut-Drains s.accepting s.phase s s' h done
  step-Drains gate_left s s' h done = gate_left-Drains s.phase s s' done
  step-Drains admin_stopped s s' h done = admin_stopped-Drains s.phase s s' done
