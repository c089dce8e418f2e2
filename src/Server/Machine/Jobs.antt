-- ===== src/Server/Machine/Jobs.antt =====
-- The requests in flight: what each event does to them.
use mathlib.Core.Option.{some-injective}
use smf.Prelude.{
  ℕ, ◌≡◌, refl, sym, ap, ◌∙◌, Bool, true, false, List, ◌∷◌, Option, none, some, arith, pluck,
}
use smf.Rpc.Connection.{Connection}
use smf.Rpc.RecvContext.{Platform}
use smf.Server.Semaphore.{Semaphore}
use smf.Server.Dispatch.{Config}
use smf.Server.Machine.{
  Server, Event, Fiber, Parse, Job, accepted, loop_tested, header_read, header_failed, granted,
  body_read, body_failed, served, destroyed, absent, reading, awaiting, waiting, finished, step,
  accept, serve, at_test, at_header, at_header_failure, at_grant, at_failure, at_job, at_destroy,
}
use smf.Server.Machine.Memory.{
  leave_by_exception-SameUnits, read_header-SameUnits, test_loop-SameUnits,
}

-- An event that is neither a body that was read nor a request that is served.
abbrev pub keeps_jobs : {S O : Type 0} → Event S O → Bool
keeps_jobs (body_read k) = false
keeps_jobs (served k m) = false
keeps_jobs _ = true

module _ {S O Q : Type 0} (p : Platform) (g : Config S O) (sem : Semaphore Q) where
  jobs-at_header :
      (id : ℕ) (f : Fiber) (s s' : Server S O Q)
      → at_header p g sem id f s ≡ some s'
      → s'.jobs ≡ s.jobs
  unfolding at_header
  jobs-at_header id awaiting s s' e =
      ap (λ (t : Server S O Q). t.jobs) (sym (some-injective _ _ e))
      ∙ (read_header-SameUnits p g sem id s).same_jobs
  jobs-at_header id absent s s' e = cc
  jobs-at_header id _ s s' e = cc

  jobs-at_test :
      (id : ℕ) (f : Fiber) (s s' : Server S O Q)
      → at_test p g sem id f s ≡ some s'
      → s'.jobs ≡ s.jobs
  unfolding at_test
  jobs-at_test id reading s s' e =
      ap (λ (t : Server S O Q). t.jobs) (sym (some-injective _ _ e))
      ∙ (test_loop-SameUnits p g sem id s).same_jobs
  jobs-at_test id absent s s' e = cc
  jobs-at_test id _ s s' e = cc

  jobs-at_header_failure :
      (id : ℕ) (f : Fiber) (s s' : Server S O Q)
      → at_header_failure p g sem id f s ≡ some s'
      → s'.jobs ≡ s.jobs
  unfolding at_header_failure
  jobs-at_header_failure id awaiting s s' e =
      ap (λ (t : Server S O Q). t.jobs) (sym (some-injective _ _ e))
      ∙ (leave_by_exception-SameUnits p g sem id s).same_jobs
  jobs-at_header_failure id absent s s' e = cc
  jobs-at_header_failure id _ s s' e = cc

  jobs-at_grant :
      (id : ℕ) (f : Fiber) (s s' : Server S O Q)
      → at_grant p g sem id f s ≡ some s'
      → s'.jobs ≡ s.jobs
  unfolding at_grant
  jobs-at_grant id (waiting h) s s' e = ground arith
  jobs-at_grant id absent s s' e = cc
  jobs-at_grant id _ s s' e = cc

  jobs-at_failure :
      (r : Option (Parse × List Parse)) (s s' : Server S O Q)
      → at_failure p g sem r s ≡ some s'
      → s'.jobs ≡ s.jobs
  unfolding at_failure
  jobs-at_failure none s s' e = cc
  jobs-at_failure (some (b, rest)) s s' e =
      ap (λ (t : Server S O Q). t.jobs) (sym (some-injective _ _ e))
      ∙ (leave_by_exception-SameUnits p g sem b.id (record s { parses = rest })).same_jobs

  jobs-at_destroy :
      (id : ℕ) (f : Fiber) (s s' : Server S O Q)
      → at_destroy p g sem id f s ≡ some s'
      → s'.jobs ≡ s.jobs
  unfolding at_destroy
  jobs-at_destroy id finished s s' e = ground arith
  jobs-at_destroy id absent s s' e = cc
  jobs-at_destroy id _ s s' e = cc

  pub jobs-kept :
      (e : Event S O) (s s' : Server S O Q)
      → keeps_jobs e ≡ true
      → step p g sem e s ≡ some s'
      → s'.jobs ≡ s.jobs
  unfolding step accept
  jobs-kept (accepted i o) s s' k done = ground arith
  jobs-kept (loop_tested id) s s' k done = jobs-at_test id (s.fibers id) s s' done
  jobs-kept (header_read id) s s' k done = jobs-at_header id (s.fibers id) s s' done
  jobs-kept (header_failed id) s s' k done = jobs-at_header_failure id (s.fibers id) s s' done
  jobs-kept (granted id) s s' k done = jobs-at_grant id (s.fibers id) s s' done
  jobs-kept (body_read n) s s' k done = cc
  jobs-kept (body_failed n) s s' k done = jobs-at_failure (pluck n s.parses) s s' done
  jobs-kept (served n m) s s' k done = cc
  jobs-kept (destroyed id) s s' k done = jobs-at_destroy id (s.fibers id) s s' done

  jobs-at_job :
      (m : Connection S O → Connection S O) (r : Option (Job × List Job)) (s s' : Server S O Q)
      → at_job p g sem m r s ≡ some s'
      → (j : Job) × (rest : List Job) × (r ≡ some (j, rest))
        × (s'.jobs ≡ rest)
        × (s'.fibers ≡ s.fibers)
  unfolding at_job serve
  jobs-at_job m none s s' e = cc
  jobs-at_job m (some (j, rest)) s s' e = (j, rest, refl, ground arith, ground arith)

  -- A request that is served was in flight and is no longer; no session loop moves.
  pub jobs-served :
      (k : ℕ) (m : Connection S O → Connection S O) (s s' : Server S O Q)
      → step p g sem (served k m) s ≡ some s'
      → (j : Job) × (rest : List Job) × (pluck k s.jobs ≡ some (j, rest))
        × (s'.jobs ≡ rest)
        × (s'.fibers ≡ s.fibers)
  unfolding step
  jobs-served k m s s' done = jobs-at_job m (pluck k s.jobs) s s' done

  -- The first request in flight can be served.
  pub serve_first :
      (m : Connection S O → Connection S O) (s : Server S O Q) (j : Job) (rest : List Job)
      → s.jobs ≡ j ∷ rest
      → (s' : Server S O Q) × (step p g sem (served 0 m) s ≡ some s')
        × (s'.jobs ≡ rest)
        × (s'.fibers ≡ s.fibers)
  unfolding step at_job serve
  serve_first m s j rest e = (serve p g sem m j (record s { jobs = rest }), rw e refl, refl, refl)
