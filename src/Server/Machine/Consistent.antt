-- ===== src/Server/Machine/Consistent.antt =====
-- The open connections are the accepted ones that no cleanup has closed.
use smf.Prelude.{
  ℕ, ◌+◌, ◌^◌, ◌≤◌, ◌<◌, ◌≡◌, refl, List, [], ◌∷◌, Option, none, some, inl, inr, arith, length,
  Option-cases, Bool-cases, ◌==◌,
}
use mathlib.Core.Option.{some-injective}
use mathlib.Core.Path.{subst}
use smf.Rpc.Connection.{Connection, connection}
use smf.Rpc.RecvContext.{Platform}
use smf.Server.Semaphore.{Semaphore}
use smf.Server.Dispatch.{Config, contains}
use smf.Server.Dispatch.Keeps.{KeepsEnabled}
use smf.Server.Machine.{
  Server, Event, Fiber, Parse, Job, accepted, loop_tested, header_read, header_failed, granted,
  body_read, body_failed, served, destroyed, absent, reading, awaiting, waiting, finished, step,
  run, accept, at_test, at_header, at_header_failure, at_grant, at_body, at_failure, at_job,
  at_destroy,
}
use smf.Server.Machine.Tracked.{IsTracked, Shrinks, IsTracked-Shrinks}
use smf.Server.Machine.Tracked.Runs.{step-Shrinks, accept-IsTracked}
use smf.Server.Machine.InStep.{
  InStep, StaysInStep, leave_by_exception-InStep, read_header-InStep, test_loop-InStep,
  serve-InStep, read_body-InStep,
}

module _ {S O : Type 0} where
  -- What happens to a connection while a handler runs neither enables nor disables it: the
  -- cleanups are events of their own.
  abbrev pub LeavesEnabled : List (Event S O) → Type 0
  LeavesEnabled [] = Unit {0}
  LeavesEnabled (served k meanwhile ∷ es) = KeepsEnabled meanwhile × LeavesEnabled es
  LeavesEnabled (e ∷ es) = LeavesEnabled es

module _ {S O Q : Type 0} (p : Platform) (g : Config S O) (sem : Semaphore Q) where
  -- The open connections are accepted and there once each, and an accepted connection is open
  -- exactly while it is enabled.
  abbrev pub IsConsistent : Server S O Q → Type 0
  IsConsistent s =
      IsTracked p g sem s
      × ((j : ℕ) → 0 < j → j ≤ s.connection_idx → InStep p g sem j s.open_connections s.connections)

  abbrev Stays : Server S O Q → Server S O Q → Type 0
  Stays = StaysInStep p g sem

  at_test-Stays :
      (id : ℕ) (f : Fiber) (s t : Server S O Q) → at_test p g sem id f s ≡ some t → Stays s t
  unfolding at_test
  at_test-Stays id reading s t e =
      subst (Stays s) (some-injective _ _ e) (test_loop-InStep p g sem id s)
  at_test-Stays id absent s t e = cc
  at_test-Stays id _ s t e = cc

  at_header-Stays :
      (id : ℕ) (f : Fiber) (s t : Server S O Q) → at_header p g sem id f s ≡ some t → Stays s t
  unfolding at_header
  at_header-Stays id awaiting s t e =
      subst (Stays s) (some-injective _ _ e) (read_header-InStep p g sem id s)
  at_header-Stays id absent s t e = cc
  at_header-Stays id _ s t e = cc

  at_header_failure-Stays :
      (id : ℕ) (f : Fiber) (s t : Server S O Q)
      → at_header_failure p g sem id f s ≡ some t
      → Stays s t
  unfolding at_header_failure
  at_header_failure-Stays id awaiting s t e =
      subst (Stays s) (some-injective _ _ e) (leave_by_exception-InStep p g sem id s)
  at_header_failure-Stays id absent s t e = cc
  at_header_failure-Stays id _ s t e = cc

  -- Nothing changes of which connections are open and enabled.
  unchanged :
      (s t : Server S O Q)
      → t.open_connections ≡ s.open_connections
      → t.connections ≡ s.connections
      → Stays s t
  unchanged s t e f n j b h = rw (e, f) h

  at_grant-Stays :
      (id : ℕ) (f : Fiber) (s t : Server S O Q) → at_grant p g sem id f s ≡ some t → Stays s t
  unfolding at_grant
  at_grant-Stays id (waiting h) s t e =
      elim (Option-cases (sem.wait h.size s.resources_available)) [
        | inl blocked ↦ unchanged s t (ground arith) (ground arith)
        | inr (q, free) ↦ unchanged s t (ground arith) (ground arith)
      ]
  at_grant-Stays id absent s t e = cc
  at_grant-Stays id _ s t e = cc

  at_body-Stays :
      (r : Option (Parse × List Parse)) (s t : Server S O Q)
      → at_body p g sem r s ≡ some t
      → Stays s t
  unfolding at_body
  at_body-Stays none s t e = cc
  at_body-Stays (some (k, rest)) s t e =
      subst (Stays s) (some-injective _ _ e)
        (read_body-InStep p g sem k (record s { parses = rest }))

  at_failure-Stays :
      (r : Option (Parse × List Parse)) (s t : Server S O Q)
      → at_failure p g sem r s ≡ some t
      → Stays s t
  unfolding at_failure
  at_failure-Stays none s t e = cc
  at_failure-Stays (some (k, rest)) s t e =
      subst (Stays s) (some-injective _ _ e)
        (leave_by_exception-InStep p g sem k.id (record s { parses = rest }))

  at_job-Stays :
      (m : Connection S O → Connection S O) (r : Option (Job × List Job)) (s t : Server S O Q)
      → KeepsEnabled m
      → at_job p g sem m r s ≡ some t
      → Stays s t
  unfolding at_job
  at_job-Stays m none s t keeps e = cc
  at_job-Stays m (some (i, rest)) s t keeps e =
      subst (Stays s) (some-injective _ _ e)
        (serve-InStep p g sem m i (record s { jobs = rest }) keeps)

  at_destroy-Stays :
      (id : ℕ) (f : Fiber) (s t : Server S O Q) → at_destroy p g sem id f s ≡ some t → Stays s t
  unfolding at_destroy
  at_destroy-Stays id finished s t e = unchanged s t (ground arith) (ground arith)
  at_destroy-Stays id absent s t e = cc
  at_destroy-Stays id _ s t e = cc

  moves :
      (s t : Server S O Q)
      → Shrinks p g sem s t
      → Stays s t
      → IsConsistent s
      → IsConsistent t × (t.connection_idx ≤ s.connection_idx + 1)
  moves s t a h c = (
    (
      IsTracked-Shrinks p g sem s t a c.0,
      λ j lo hi. h (s.connection_idx + 1) j c.0 (c.1 j lo (omega (arith, a.same_idx))),
    ),
    omega (arith, a.same_idx),
  )

  accept-InStep :
      (i : S) (o : O) (s : Server S O Q) (j : ℕ)
      → s.connection_idx + 1 < 2 ^ 64
      → IsConsistent s
      → 0 < j
      → j ≤ s.connection_idx + 1
      → InStep p g sem j (accept p g sem i o s).open_connections (accept p g sem i o s).connections
  unfolding accept contains connection
  accept-InStep i o s j room c lo hi =
      let (tracked, next, fresh) = accept-IsTracked p g sem i o s room c.0 in
      rw (fresh, next)
        (elim (Bool-cases (s.connection_idx + 1 == j)) [
          | inl new ↦ rw new refl
          | inr old ↦ rw old (c.1 j lo (ground arith))
        ])

  accept-IsConsistent :
      (i : S) (o : O) (s : Server S O Q)
      → s.connection_idx + 1 < 2 ^ 64
      → IsConsistent s
      → IsConsistent (accept p g sem i o s)
        × ((accept p g sem i o s).connection_idx ≤ s.connection_idx + 1)
  accept-IsConsistent i o s room c =
      let (tracked, next, fresh) = accept-IsTracked p g sem i o s room c.0 in
      (
        (tracked, λ j lo hi. accept-InStep i o s j room c lo (omega (arith, next))),
        omega (arith, next),
      )

  step-IsConsistent :
      (e : Event S O) (s t : Server S O Q)
      → s.connection_idx + 1 < 2 ^ 64
      → LeavesEnabled (e ∷ [])
      → step p g sem e s ≡ some t
      → IsConsistent s
      → IsConsistent t × (t.connection_idx ≤ s.connection_idx + 1)
  unfolding step
  step-IsConsistent (accepted i o) s t room m done c =
      subst (λ u. IsConsistent u × (u.connection_idx ≤ s.connection_idx + 1))
        (some-injective _ _ done) (accept-IsConsistent i o s room c)
  step-IsConsistent (loop_tested id) s t room m done c =
      moves s t (step-Shrinks p g sem (loop_tested id) s t refl done) (at_test-Stays id _ s t done)
        c
  step-IsConsistent (header_read id) s t room m done c =
      moves s t (step-Shrinks p g sem (header_read id) s t refl done)
        (at_header-Stays id _ s t done) c
  step-IsConsistent (header_failed id) s t room m done c =
      moves s t (step-Shrinks p g sem (header_failed id) s t refl done)
        (at_header_failure-Stays id _ s t done) c
  step-IsConsistent (granted id) s t room m done c =
      moves s t (step-Shrinks p g sem (granted id) s t refl done) (at_grant-Stays id _ s t done) c
  step-IsConsistent (body_read k) s t room m done c =
      moves s t (step-Shrinks p g sem (body_read k) s t refl done) (at_body-Stays _ s t done) c
  step-IsConsistent (body_failed k) s t room m done c =
      moves s t (step-Shrinks p g sem (body_failed k) s t refl done) (at_failure-Stays _ s t done) c
  step-IsConsistent (served k f) s t room m done c =
      moves s t (step-Shrinks p g sem (served k f) s t refl done) (at_job-Stays f _ s t m.0 done) c
  step-IsConsistent (destroyed id) s t room m done c =
      moves s t (step-Shrinks p g sem (destroyed id) s t refl done) (at_destroy-Stays id _ s t done)
        c

  split :
      (e : Event S O) (es : List (Event S O))
      → LeavesEnabled (e ∷ es)
      → LeavesEnabled (e ∷ []) × LeavesEnabled es
  split (served k m) es h = ((h.0, tt), h.1)
  split (accepted i o) es h = (tt, h)
  split _ es h = (tt, h)

  -- Over any run of a server in which the connection ids do not wrap and in which nothing but the
  -- cleanups enables or disables a connection: if the open connections are accepted ones, each is
  -- there once, and an accepted connection is open exactly while it is enabled, then all of that
  -- holds afterwards. So an accepted connection is taken off the open ones when it is closed, and
  -- not before.
  pub run-IsConsistent :
      (es : List (Event S O)) (s t : Server S O Q)
      → s.connection_idx + length es < 2 ^ 64
      → LeavesEnabled es
      → IsConsistent s
      → run p g sem es s ≡ some t
      → IsConsistent t
  unfolding run
  run-IsConsistent [] s t room m c done = rw (← some-injective _ _ done) c
  run-IsConsistent (e ∷ es) s t room m c done = elim (Option-cases (step p g sem e s)) [
    | inl stuck ↦ ground arith
    | inr (u, now) ↦
        let kept = step-IsConsistent e s u (omega arith) (split e es m).0 now c in
        run-IsConsistent es u t (omega (arith, kept.1)) (split e es m).1 kept.0 (ground arith)
  ]
