-- ===== src/Server/Machine/Memory.antt =====
-- The bytes that a server lets be in flight, `resources_available` of
-- src/include/smf/rpc_connection_limits.h.
use smf.Prelude.{
  ℕ, ◌+◌, ◌^◌, ◌<◌, ◌≡◌, refl, List, [], ◌∷◌, Option, none, some, inl, inr, arith, pluck, sum_by,
  Bool-cases, ap, sym, ◌∙◌, sum_by-pluck, Option-cases,
}
use mathlib.Core.Option.{some-injective}
use smf.Rpc.Future.{Future, ready, failed}
use smf.Rpc.Header.{Header}
use smf.Rpc.Connection.{Connection, is_valid}
use smf.Rpc.RecvContext.{Platform, RecvContext}
use smf.Server.Semaphore.{Semaphore}
use smf.Server.Dispatch.{Config, Served, dispatch_rpc, size_of_int32}
use smf.Server.Machine.{
  Server, Event, Fiber, Parse, Job, accepted, loop_tested, header_read, header_failed, granted,
  body_read, body_failed, served, destroyed, absent, reading, awaiting, waiting, finished, step,
  run, accept, leave_by_exception, after_header, test_loop, read_header, at_test, at_header,
  at_header_failure, at_grant, at_body, at_failure, at_job, at_destroy, serve_view,
}

module _ {S O Q : Type 0} (p : Platform) (g : Config S O) (sem : Semaphore Q) where
  -- The units that are free, and those that bodies being read and requests in flight hold.
  abbrev pub units : Server S O Q → ℕ
  units s =
      sem.count s.resources_available
      + sum_by (λ b. b.header.size) s.parses
      + sum_by (λ j. j.payload_size) s.jobs

  -- What a body that takes too long, or whose read fails, drops: its units.
  abbrev pub dropped_by : Option (Parse × List Parse) → ℕ
  dropped_by none = 0
  dropped_by (some (b, rest)) = b.header.size

  abbrev pub dropped : Event S O → Server S O Q → ℕ
  dropped (body_failed k) s = dropped_by (pluck k s.parses)
  dropped _ s = 0

  -- Two servers with the same bodies and requests in flight and the same semaphore.
  pub record SameUnits (s t : Server S O Q) : Type 0 where
    pub same_count : t.resources_available ≡ s.resources_available
    pub same_parses : t.parses ≡ s.parses
    pub same_jobs : t.jobs ≡ s.jobs

  pub leave_by_exception-SameUnits :
      (id : ℕ) (s : Server S O Q) → SameUnits s (leave_by_exception p g sem id s)
  unfolding leave_by_exception
  leave_by_exception-SameUnits id s = record {
    same_count = refl;
    same_parses = refl;
    same_jobs = refl;
  }

  after_header-SameUnits :
      (id : ℕ) (r : Future (Option Header)) (s : Server S O Q)
      → SameUnits s (after_header p g sem id r s)
  unfolding after_header
  after_header-SameUnits id (failed x) s = leave_by_exception-SameUnits id s
  after_header-SameUnits id (ready none) s = record {
    same_count = refl;
    same_parses = refl;
    same_jobs = refl;
  }
  after_header-SameUnits id (ready (some h)) s = record {
    same_count = refl;
    same_parses = refl;
    same_jobs = refl;
  }

  pub read_header-SameUnits : (id : ℕ) (s : Server S O Q) → SameUnits s (read_header p g sem id s)
  unfolding read_header
  read_header-SameUnits id s = record {
    same_count = (after_header-SameUnits id _ _).same_count;
    same_parses = (after_header-SameUnits id _ _).same_parses;
    same_jobs = (after_header-SameUnits id _ _).same_jobs;
  }

  pub test_loop-SameUnits : (id : ℕ) (s : Server S O Q) → SameUnits s (test_loop p g sem id s)
  unfolding test_loop
  test_loop-SameUnits id s = elim (Bool-cases (is_valid g.io (s.connections id))) [
    | inl valid ↦ rw valid (record { same_count = refl; same_parses = refl; same_jobs = refl })
    | inr invalid ↦ rw invalid (record { same_count = refl; same_parses = refl; same_jobs = refl })
  ]

  units-SameUnits : (s t : Server S O Q) → SameUnits s t → units t ≡ units s
  units-SameUnits s t h = ground arith

  units-at_header :
      (id : ℕ) (f : Fiber) (s s' : Server S O Q)
      → at_header p g sem id f s ≡ some s'
      → units s' ≡ units s
  unfolding at_header
  units-at_header id awaiting s s' e =
      ap units (sym (some-injective _ _ e)) ∙ units-SameUnits s _ (read_header-SameUnits id s)
  units-at_header id absent s s' e = ground arith
  units-at_header id _ s s' e = ground arith

  units-at_test :
      (id : ℕ) (f : Fiber) (s s' : Server S O Q)
      → at_test p g sem id f s ≡ some s'
      → units s' ≡ units s
  unfolding at_test
  units-at_test id reading s s' e =
      ap units (sym (some-injective _ _ e)) ∙ units-SameUnits s _ (test_loop-SameUnits id s)
  units-at_test id absent s s' e = ground arith
  units-at_test id _ s s' e = ground arith

  units-at_header_failure :
      (id : ℕ) (f : Fiber) (s s' : Server S O Q)
      → at_header_failure p g sem id f s ≡ some s'
      → units s' ≡ units s
  unfolding at_header_failure
  units-at_header_failure id awaiting s s' e =
      ap units (sym (some-injective _ _ e))
      ∙ units-SameUnits s _ (leave_by_exception-SameUnits id s)
  units-at_header_failure id absent s s' e = ground arith
  units-at_header_failure id _ s s' e = ground arith

  units-at_grant :
      (id : ℕ) (f : Fiber) (s s' : Server S O Q)
      → at_grant p g sem id f s ≡ some s'
      → units s' ≡ units s
  unfolding at_grant
  units-at_grant id (waiting h) s s' e =
      elim (Option-cases (sem.wait h.size s.resources_available)) [
        | inl blocked ↦ ground arith
        | inr (q, free) ↦ ground (arith, sem.count-wait h.size s.resources_available q)
      ]
  units-at_grant id absent s s' e = ground arith
  units-at_grant id _ s s' e = ground arith

  units-at_body :
      (k : ℕ) (r : Option (Parse × List Parse)) (s s' : Server S O Q)
      → pluck k s.parses ≡ r
      → at_body p g sem r s ≡ some s'
      → units s' ≡ units s
  unfolding at_body
  units-at_body k none s s' found e = ground arith
  units-at_body k (some (b, rest)) s s' found e =
      ground (arith, sum_by-pluck (λ (x : Parse). x.header.size) k s.parses b rest)

  units-at_failure :
      (k : ℕ) (r : Option (Parse × List Parse)) (s s' : Server S O Q)
      → pluck k s.parses ≡ r
      → at_failure p g sem r s ≡ some s'
      → units s' + dropped_by r ≡ units s
  unfolding at_failure
  units-at_failure k none s s' found e = ground arith
  units-at_failure k (some (b, rest)) s s' found e = ground (
    arith,
    sum_by-pluck (λ (x : Parse). x.header.size) k s.parses b rest,
    leave_by_exception-SameUnits b.id (record s { parses = rest }),
  )

  -- Whatever becomes of a request, its units are signalled.
  semaphore-dispatch :
      (m : Connection S O → Connection S O) (n id : ℕ) (c : Option RecvContext) (w : Served S O)
      (o : List ℕ) (q : Q)
      → (dispatch_rpc g sem m n id c w o q).2 ≡ sem.signal (size_of_int32 n) q
  unfolding dispatch_rpc
  semaphore-dispatch m n id none w o q = refl
  semaphore-dispatch m n id (some ctx) w o q = refl

  units-at_job :
      (k : ℕ) (m : Connection S O → Connection S O) (r : Option (Job × List Job))
      (s s' : Server S O Q)
      → units s < 2 ^ 31
      → pluck k s.jobs ≡ r
      → at_job p g sem m r s ≡ some s'
      → units s' ≡ units s
  unfolding at_job
  units-at_job k m none s s' small found e = ground arith
  units-at_job k m (some (j, rest)) s s' small found e = ground (
    arith,
    sum_by-pluck (λ (x : Job). x.payload_size) k s.jobs j rest,
    semaphore-dispatch m j.payload_size j.id j.context (serve_view p g sem j.id s)
        s.open_connections s.resources_available,
    sem.count-signal j.payload_size s.resources_available,
  )

  units-at_destroy :
      (id : ℕ) (f : Fiber) (s s' : Server S O Q)
      → at_destroy p g sem id f s ≡ some s'
      → units s' ≡ units s
  unfolding at_destroy
  units-at_destroy id finished s s' e = ground arith
  units-at_destroy id absent s s' e = ground arith
  units-at_destroy id _ s s' e = ground arith

  -- In every event the units stay the same, but for a body that takes too long or whose read fails, which drops its own.
  pub units-step :
      (e : Event S O) (s s' : Server S O Q)
      → units s < 2 ^ 31
      → step p g sem e s ≡ some s'
      → units s' + dropped e s ≡ units s
  unfolding step accept
  units-step (accepted i o) s s' small done = ground arith
  units-step (loop_tested id) s s' small done =
      omega (arith, units-at_test id (s.fibers id) s s' done)
  units-step (header_read id) s s' small done =
      omega (arith, units-at_header id (s.fibers id) s s' done)
  units-step (header_failed id) s s' small done =
      omega (arith, units-at_header_failure id (s.fibers id) s s' done)
  units-step (granted id) s s' small done = omega (arith, units-at_grant id (s.fibers id) s s' done)
  units-step (body_read k) s s' small done =
      omega (arith, units-at_body k (pluck k s.parses) s s' refl done)
  units-step (body_failed k) s s' small done = units-at_failure k (pluck k s.parses) s s' refl done
  units-step (served k m) s s' small done =
      omega (arith, units-at_job k m (pluck k s.jobs) s s' small refl done)
  units-step (destroyed id) s s' small done =
      omega (arith, units-at_destroy id (s.fibers id) s s' done)

  -- All that is dropped along a run.
  unfoldable pub dropped_along : List (Event S O) → Server S O Q → ℕ
  dropped_along [] s = 0
  dropped_along (e ∷ es) s = elim (step p g sem e s) [
    | none ↦ 0
    | some s' ↦ dropped e s + dropped_along es s'
  ]

  pub units-run :
      (es : List (Event S O)) (s s' : Server S O Q)
      → units s < 2 ^ 31
      → run p g sem es s ≡ some s'
      → units s' + dropped_along es s ≡ units s
  unfolding run dropped_along
  units-run [] s s' small done = ground arith
  units-run (e ∷ es) s s' small done = elim (Option-cases (step p g sem e s)) [
    | inl stuck ↦ ground arith
    | inr (t, now) ↦ ground (arith, units-step e s t small now, units-run es t s')
  ]
