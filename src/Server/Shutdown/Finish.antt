-- ===== src/Server/Shutdown/Finish.antt =====
-- `stop` comes to its end: the requests in the gate are served, and then nothing holds it up.
use mathlib.Core.Path.{subst}
use mathlib.Core.Option.{some-injective}
use smf.Prelude.{
  ℕ, ◌+◌, ◌≡◌, refl, ◌∙◌, Bool, true, false, List, [], ◌∷◌, ◌++◌, none, some, inl, inr, arith,
  Option-cases,
}
use smf.Rpc.RecvContext.{Platform}
use smf.Server.Semaphore.{Semaphore}
use smf.Server.Dispatch.{Config}
use smf.Server.Machine
use smf.Server.Machine.{Server, Job, served}
use smf.Server.Machine.Jobs.{serve_first}
use smf.Server.Shutdown.{
  Phase, serving, aborting, draining, stopping_admin, stopped, Stopping, Gates, StopEvent, happens,
  gate_left, admin_stopped, in_gate, late, leave_gate, stop_admin, step, run,
}
use smf.Server.Shutdown.Drain.{IsClosed, leaves, step-Drains}

module _ {S O Q : Type 0} (p : Platform) (g : Config S O) (sem : Semaphore Q)
    (gates : Gates S) where
  abbrev pub leaves_along : List (StopEvent S O) → Stopping S O Q → ℕ
  leaves_along [] s = 0
  leaves_along (e ∷ es) s = elim (step p g sem gates e s) [
    | none ↦ 0
    | some s' ↦ leaves p g sem gates e s + leaves_along es s'
  ]

  -- What is left to happen: each request in flight is served, the gate is left, and the admin server,
  -- if there is one, is stopped.
  abbrev pub admin_end : Bool → List (StopEvent S O)
  admin_end true = admin_stopped ∷ []
  admin_end false = []

  abbrev pub serves : List Job → List (StopEvent S O)
  serves [] = []
  serves (j ∷ jobs) = happens (served 0 (λ c. c)) ∷ serves jobs

  abbrev pub to_end : Phase → Bool → List Job → List (StopEvent S O)
  to_end draining admin jobs = serves jobs ++ gate_left ∷ admin_end admin
  to_end stopping_admin admin jobs = admin_stopped ∷ []
  to_end _ admin jobs = []

  abbrev pub Finishes : List (StopEvent S O) → Stopping S O Q → Type 0
  Finishes es s =
      (s' : Stopping S O Q) × (run p g sem gates es s ≡ some s')
      × (s'.phase ≡ stopped)
      × (s'.server.fibers ≡ s.server.fibers)

  no_jobs-Finishes :
      (admin : Bool) (s : Stopping S O Q)
      → s.server.jobs ≡ []
      → s.phase ≡ draining
      → s.admin ≡ admin
      → Finishes (gate_left ∷ admin_end admin) s
  unfolding run step leave_gate stop_admin in_gate
  no_jobs-Finishes true s none_left here a =
      (record s { phase = stopped }, rw (here, none_left, a) refl, refl, refl)
  no_jobs-Finishes false s none_left here a =
      (record s { phase = stopped }, rw (here, none_left, a) refl, refl, refl)

  step-served :
      (s : Stopping S O Q) (t : Server S O Q)
      → s.phase ≡ draining
      → Machine.step p g sem (served 0 (λ c. c)) s.server ≡ some t
      → step p g sem gates (happens (served 0 (λ c. c))) s ≡ some (record s { server = t })
  unfolding step late
  step-served s t here now = rw (here, now) refl

  jobs-Finishes :
      (js : List Job) (admin : Bool) (s : Stopping S O Q)
      → s.server.jobs ≡ js
      → s.phase ≡ draining
      → s.admin ≡ admin
      → Finishes (serves js ++ gate_left ∷ admin_end admin) s
  unfolding run step late
  jobs-Finishes [] admin s q here a = no_jobs-Finishes admin s q here a
  jobs-Finishes (j ∷ js) admin s q here a =
      let (t, now, left, same) = serve_first p g sem (λ c. c) s.server j js q in
      let (u, ran, ended, fibers) = jobs-Finishes js admin (record s { server = t }) left here a in
      (u, rw (run, step-served s t here now) ran, ended, fibers ∙ same)

  finishes :
      (f : Phase) (s : Stopping S O Q)
      → s.phase ≡ f
      → IsClosed f
      → Finishes (to_end f s.admin s.server.jobs) s
  unfolding run step stop_admin
  finishes serving s here h = absurd h
  finishes aborting s here h = absurd h
  finishes draining s here h = jobs-Finishes s.server.jobs s.admin s refl here refl
  finishes stopping_admin s here h = (record s { phase = stopped }, rw here refl, refl, refl)
  finishes stopped s here h = (s, refl, here, refl)

  -- From when `stop` has closed the gate, whatever happens, the requests that have left the gate
  -- and those that are in it are together as many as before, so that none enters it any more, and
  -- `stop` can still end: once each request in flight has been served, the gate is left and the
  -- admin server, if there is one, stops. No session loop of a connection has to end for it.
  pub stop-Finishes :
      (es : List (StopEvent S O)) (s s' : Stopping S O Q)
      → IsClosed s.phase
      → run p g sem gates es s ≡ some s'
      → (in_gate s'.server.jobs + leaves_along es s ≡ in_gate s.server.jobs)
        × Finishes (to_end s'.phase s'.admin s'.server.jobs) s'
  unfolding run
  stop-Finishes [] s s' h done = (
    ground arith,
    subst (λ u. Finishes (to_end u.phase u.admin u.server.jobs) u) (some-injective _ _ done)
        (finishes s.phase s refl h),
  )
  stop-Finishes (e ∷ es) s s' h done = elim (Option-cases (step p g sem gates e s)) [
    | inl stuck ↦ ground arith
    | inr (t, now) ↦
        let (kept, closed) = step-Drains p g sem gates e s t h now in
        let (counted, ends) = stop-Finishes es t s' closed (ground arith) in (ground arith, ends)
  ]
