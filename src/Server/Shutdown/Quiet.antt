-- ===== src/Server/Shutdown/Quiet.antt =====
-- What holds when `stop` has returned.
use mathlib.Core.Path.{subst}
use mathlib.Core.Option.{some-injective}
use smf.Prelude.{
  ℕ, ◌≤◌, ◌≡◌, refl, Bool, true, false, List, [], ◌∷◌, Option, none, some, inl, inr, arith, ◌==◌,
  Bool-cases, Option-cases, if◌then◌else◌,
}
use smf.Rpc.RecvContext.{Platform}
use smf.Server.Semaphore.{Semaphore}
use smf.Server.Dispatch.{Config}
use smf.Server.Machine.{Server, Event}
use smf.Server.Shutdown.{
  Phase, serving, aborting, draining, stopping_admin, stopped, Stopping, Gates, StopEvent, happens,
  accept_failed, stop_called, inputs_shut, gate_left, admin_stopped, in_gate, with_server,
  serve_event, shut, leave_gate, stop_admin, call_stop, step, run,
}
use smf.Server.Shutdown.Drain.{step-Drains}

-- The accept loop has ended before the gate is closed, and the gate is empty once it is left.
abbrev pub Quiet : Phase → Bool → ℕ → Type 0
Quiet serving accepting n = Unit
Quiet aborting accepting n = Unit
Quiet draining accepting n = accepting ≡ false
Quiet _ accepting n = (accepting ≡ false) × (n ≡ 0)

Quiet-fewer : (f : Phase) (b : Bool) (m n : ℕ) → m ≤ n → Quiet f b n → Quiet f b m
Quiet-fewer serving b m n le h = tt
Quiet-fewer aborting b m n le h = tt
Quiet-fewer draining b m n le h = h
Quiet-fewer stopping_admin b m n le h = (h.0, omega (arith, h.1, le))
Quiet-fewer stopped b m n le h = (h.0, omega (arith, h.1, le))

Quiet-ended : (f : Phase) (b : Bool) (n : ℕ) → Quiet f b n → Quiet f false n
Quiet-ended serving b n h = tt
Quiet-ended aborting b n h = tt
Quiet-ended draining b n h = refl
Quiet-ended stopping_admin b n h = (refl, h.1)
Quiet-ended stopped b n h = (refl, h.1)

Quiet-left :
    (admin b : Bool) (n : ℕ)
    → b ≡ false
    → n ≡ 0
    → Quiet (if admin then stopping_admin else stopped) b n
Quiet-left true b n ended empty = (ended, empty)
Quiet-left false b n ended empty = (ended, empty)

module _ {S O Q : Type 0} (p : Platform) (g : Config S O) (sem : Semaphore Q)
    (gates : Gates S) where
  abbrev pub IsQuiet : Stopping S O Q → Type 0
  IsQuiet s = Quiet s.phase s.accepting (in_gate s.server.jobs)

  happens-IsQuiet :
      (f : Phase) (e : Event S O) (s s' : Stopping S O Q)
      → s.phase ≡ f
      → step p g sem gates (happens e) s ≡ some s'
      → (s'.phase ≡ s.phase) × (s'.accepting ≡ s.accepting)
      → Quiet f s.accepting (in_gate s.server.jobs)
      → Quiet f s.accepting (in_gate s'.server.jobs)
  happens-IsQuiet serving e s s' here done same h = tt
  happens-IsQuiet aborting e s s' here done same h = tt
  happens-IsQuiet f e s s' here done same h =
      Quiet-fewer f s.accepting (in_gate s'.server.jobs) (in_gate s.server.jobs)
        (omega (arith, (step-Drains p g sem gates (happens e) s s' (rw here tt) done).0)) h

  same-happens :
      (r : Option (Server S O Q)) (s s' : Stopping S O Q)
      → with_server p g sem gates r s ≡ some s'
      → (s'.phase ≡ s.phase) × (s'.accepting ≡ s.accepting)
  same-happens none s s' done = cc
  same-happens (some t) s s' done = ground arith

  shut-IsQuiet :
      (b : Bool) (f : Phase) (s s' : Stopping S O Q)
      → s.accepting ≡ b
      → shut p g sem gates b f s ≡ some s'
      → IsQuiet s'
  unfolding shut
  shut-IsQuiet false aborting s s' ended done = subst IsQuiet (some-injective _ _ done) ended
  shut-IsQuiet true f s s' ended done = cc
  shut-IsQuiet false serving s s' ended done = cc
  shut-IsQuiet false _ s s' ended done = cc

  leave_gate-IsQuiet :
      (f : Phase) (s s' : Stopping S O Q)
      → s.phase ≡ f
      → leave_gate p g sem gates f s ≡ some s'
      → IsQuiet s
      → IsQuiet s'
  unfolding leave_gate
  leave_gate-IsQuiet draining s s' here done h = elim (Bool-cases (in_gate s.server.jobs == 0)) [
    | inl empty ↦ subst IsQuiet (some-injective _ _ (rw empty at done)) (
        Quiet-left s.admin s.accepting (in_gate s.server.jobs)
          (subst (λ f. Quiet f s.accepting (in_gate s.server.jobs)) here h) (ground arith))
    | inr busy ↦ ground arith
  ]
  leave_gate-IsQuiet serving s s' here done h = cc
  leave_gate-IsQuiet _ s s' here done h = cc

  stop_admin-IsQuiet :
      (f : Phase) (s s' : Stopping S O Q)
      → s.phase ≡ f
      → stop_admin p g sem gates f s ≡ some s'
      → IsQuiet s
      → IsQuiet s'
  unfolding stop_admin
  stop_admin-IsQuiet stopping_admin s s' here done h =
      subst IsQuiet (some-injective _ _ done)
        (subst (λ f. Quiet f s.accepting (in_gate s.server.jobs)) here h)
  stop_admin-IsQuiet serving s s' here done h = cc
  stop_admin-IsQuiet _ s s' here done h = cc

  call_stop-IsQuiet :
      (f : Phase) (s s' : Stopping S O Q) → call_stop p g sem gates f s ≡ some s' → IsQuiet s'
  unfolding call_stop
  call_stop-IsQuiet serving s s' done = subst IsQuiet (some-injective _ _ done) tt
  call_stop-IsQuiet aborting s s' done = cc
  call_stop-IsQuiet _ s s' done = cc

  accept_failed-IsQuiet :
      (b : Bool) (s s' : Stopping S O Q)
      → (if b then some (record s { accepting = false }) else none) ≡ some s'
      → IsQuiet s
      → IsQuiet s'
  accept_failed-IsQuiet true s s' done h =
      subst IsQuiet (some-injective _ _ done)
        (Quiet-ended s.phase s.accepting (in_gate s.server.jobs) h)
  accept_failed-IsQuiet false s s' done h = cc

  step-IsQuiet :
      (e : StopEvent S O) (s s' : Stopping S O Q)
      → step p g sem gates e s ≡ some s'
      → IsQuiet s
      → IsQuiet s'
  unfolding step
  step-IsQuiet (happens e) s s' done h =
      let same =
        same-happens (serve_event p g sem gates s.phase s.accepting e s.server) s s' done in
      rw (same.0, same.1) (happens-IsQuiet s.phase e s s' refl done same h)
  step-IsQuiet accept_failed s s' done h = accept_failed-IsQuiet s.accepting s s' done h
  step-IsQuiet stop_called s s' done h = call_stop-IsQuiet s.phase s s' done
  step-IsQuiet inputs_shut s s' done h = shut-IsQuiet s.accepting s.phase s s' refl done
  step-IsQuiet gate_left s s' done h = leave_gate-IsQuiet s.phase s s' refl done h
  step-IsQuiet admin_stopped s s' done h = stop_admin-IsQuiet s.phase s s' refl done h

  -- Whatever happens to a server and whenever it is stopped: once the gate is closed, the accept
  -- loop has ended, and once the gate is left, no request is in it, if both held at the start.
  pub run-IsQuiet :
      (es : List (StopEvent S O)) (s s' : Stopping S O Q)
      → IsQuiet s
      → run p g sem gates es s ≡ some s'
      → IsQuiet s'
  unfolding run
  run-IsQuiet [] s s' h done = subst IsQuiet (some-injective _ _ done) h
  run-IsQuiet (e ∷ es) s s' h done = elim (Option-cases (step p g sem gates e s)) [
    | inl stuck ↦ ground arith
    | inr (t, now) ↦ run-IsQuiet es t s' (step-IsQuiet e s t now h) (ground arith)
  ]
