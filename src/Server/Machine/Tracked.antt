-- ===== src/Server/Machine/Tracked.antt =====
-- Every event keeps the set of open connections tidy; its counter is another matter.
pub mod Runs
use smf.Prelude.{
  ℕ, ◌+◌, ◌^◌, ◌≤◌, ◌<◌, ◌≡◌, refl, ◌∙◌, List, [], ◌∷◌, Option, none, some, inl, inr, arith, length,
  Bool-cases, Option-cases,
}
use mathlib.Core.Option.{some-injective}
use mathlib.Core.Path.{subst}
use smf.Rpc.Future.{Future, Completion, ready, failed}
use smf.Rpc.Header.{Header}
use smf.Rpc.Connection.{Connection, is_valid}
use smf.Rpc.RecvContext.{Platform, RecvContext}
use smf.Server.Semaphore.{Semaphore}
use smf.Server.Dispatch.{
  Config, Served, cleanup_dispatch_rpc, dispatch_rpc, finish_dispatch, do_dispatch_rpc,
}
use smf.Server.Machine.{
  Server, Event, Fiber, Parse, Job, accepted, loop_tested, header_read, header_failed, granted,
  body_read, body_failed, served, destroyed, absent, reading, awaiting, waiting, finished, step,
  run, accept, cleanup, with_error, leave_loop, leave_by_exception, after_header, test_loop,
  read_header, serve, at_test, at_header, at_header_failure, at_grant, at_body, at_failure, at_job,
  at_destroy,
}
use smf.Server.Machine.Connections.{Below, erase-Below, contains_above}

module _ {S O Q : Type 0} (p : Platform) (g : Config S O) (sem : Semaphore Q) where
  -- Every open connection was accepted, and is there once.
  abbrev pub IsTracked : Server S O Q → Type 0
  IsTracked s = Below (s.connection_idx + 1) s.open_connections

  -- An event other than an accept leaves the counter alone and can only close connections.
  pub record Shrinks (s t : Server S O Q) : Type 0 where
    pub same_idx : t.connection_idx ≡ s.connection_idx
    pub keeps : (n : ℕ) → Below n s.open_connections → Below n t.open_connections

  cleanup_dispatch-Below :
      (id n : ℕ) (w : Served S O) (xs : List ℕ)
      → Below n xs
      → Below n (cleanup_dispatch_rpc id (w, xs)).1
  unfolding cleanup_dispatch_rpc
  cleanup_dispatch-Below id n w xs b = ground (arith, erase-Below id n xs b)

  cleanup-Shrinks : (id : ℕ) (s : Server S O Q) → Shrinks s (cleanup p g sem id s)
  unfolding cleanup
  cleanup-Shrinks id s = record {
    same_idx = refl;
    keeps = λ n b. cleanup_dispatch-Below id n _ s.open_connections b;
  }

  Shrinks-trans : (s t u : Server S O Q) → Shrinks s t → Shrinks t u → Shrinks s u
  Shrinks-trans s t u a b = record {
    same_idx = b.same_idx ∙ a.same_idx;
    keeps = λ n h. b.keeps n (a.keeps n h);
  }

  unchanged :
      (s t : Server S O Q)
      → t.connection_idx ≡ s.connection_idx
      → t.open_connections ≡ s.open_connections
      → Shrinks s t
  unchanged s t e f = record { same_idx = e; keeps = λ n h. rw f h }

  pub leave_loop-Shrinks : (id : ℕ) (s : Server S O Q) → Shrinks s (leave_loop p g sem id s)
  unfolding leave_loop
  leave_loop-Shrinks id s = record {
    same_idx = (cleanup-Shrinks id s).same_idx;
    keeps = (cleanup-Shrinks id s).keeps;
  }

  leave_by_exception-Shrinks :
      (id : ℕ) (s : Server S O Q) → Shrinks s (leave_by_exception p g sem id s)
  unfolding leave_by_exception
  leave_by_exception-Shrinks id s = record {
    same_idx = (leave_loop-Shrinks id s).same_idx;
    keeps = λ n h.
        (cleanup-Shrinks id (
            with_error p g sem "handling client session exception" id
              (leave_loop p g sem id s))).keeps
          n ((leave_loop-Shrinks id s).keeps n h);
  }

  after_header-Shrinks :
      (id : ℕ) (r : Future (Option Header)) (s : Server S O Q)
      → Shrinks s (after_header p g sem id r s)
  unfolding after_header
  after_header-Shrinks id (failed x) s = leave_by_exception-Shrinks id s
  after_header-Shrinks id (ready none) s = unchanged s _ refl refl
  after_header-Shrinks id (ready (some h)) s = unchanged s _ refl refl

  read_header-Shrinks : (id : ℕ) (s : Server S O Q) → Shrinks s (read_header p g sem id s)
  unfolding read_header
  read_header-Shrinks id s = record {
    same_idx = (after_header-Shrinks id _ _).same_idx;
    keeps = (after_header-Shrinks id _ _).keeps;
  }

  test_loop-Shrinks : (id : ℕ) (s : Server S O Q) → Shrinks s (test_loop p g sem id s)
  unfolding test_loop
  test_loop-Shrinks id s = elim (Bool-cases (is_valid g.io (s.connections id))) [
    | inl valid ↦ rw valid (unchanged s _ refl refl)
    | inr invalid ↦ rw invalid (leave_loop-Shrinks id s)
  ]

  open-dispatch :
      (m : Connection S O → Connection S O) (k id n : ℕ) (c : Option RecvContext) (w : Served S O)
      (xs : List ℕ) (q : Q)
      → Below n xs
      → Below n (dispatch_rpc g sem m k id c w xs q).1
  unfolding dispatch_rpc
  open-dispatch m k id n none w xs q b = b
  open-dispatch m k id n (some ctx) w xs q b = finish (do_dispatch_rpc g m ctx w)
    where
      finish : (r : Completion × Served S O) → Below n (finish_dispatch g sem id xs r).1
      finish (ready u, w') = cleanup_dispatch-Below id n w' xs b
      finish (failed x, w') = b

  serve-Shrinks :
      (m : Connection S O → Connection S O) (j : Job) (s : Server S O Q)
      → Shrinks s (serve p g sem m j s)
  unfolding serve
  serve-Shrinks m j s = record {
    same_idx = refl;
    keeps = λ n b. open-dispatch m j.payload_size j.id n j.context _ s.open_connections _ b;
  }

  at_header-Shrinks :
      (id : ℕ) (f : Fiber) (s s' : Server S O Q) → at_header p g sem id f s ≡ some s' → Shrinks s s'
  unfolding at_header
  at_header-Shrinks id awaiting s s' e =
      subst (Shrinks s) (some-injective _ _ e) (read_header-Shrinks id s)
  at_header-Shrinks id absent s s' e = cc
  at_header-Shrinks id _ s s' e = cc

  at_test-Shrinks :
      (id : ℕ) (f : Fiber) (s s' : Server S O Q) → at_test p g sem id f s ≡ some s' → Shrinks s s'
  unfolding at_test
  at_test-Shrinks id reading s s' e =
      subst (Shrinks s) (some-injective _ _ e) (test_loop-Shrinks id s)
  at_test-Shrinks id absent s s' e = cc
  at_test-Shrinks id _ s s' e = cc

  at_header_failure-Shrinks :
      (id : ℕ) (f : Fiber) (s s' : Server S O Q)
      → at_header_failure p g sem id f s ≡ some s'
      → Shrinks s s'
  unfolding at_header_failure
  at_header_failure-Shrinks id awaiting s s' e =
      subst (Shrinks s) (some-injective _ _ e) (leave_by_exception-Shrinks id s)
  at_header_failure-Shrinks id absent s s' e = cc
  at_header_failure-Shrinks id _ s s' e = cc

  at_grant-Shrinks :
      (id : ℕ) (f : Fiber) (s s' : Server S O Q) → at_grant p g sem id f s ≡ some s' → Shrinks s s'
  unfolding at_grant
  at_grant-Shrinks id (waiting h) s s' e =
      elim (Option-cases (sem.wait h.size s.resources_available)) [
        | inl blocked ↦ unchanged s s' (ground arith) (ground arith)
        | inr (q, free) ↦ unchanged s s' (ground arith) (ground arith)
      ]
  at_grant-Shrinks id absent s s' e = cc
  at_grant-Shrinks id _ s s' e = cc

  at_body-Shrinks :
      (r : Option (Parse × List Parse)) (s s' : Server S O Q)
      → at_body p g sem r s ≡ some s'
      → Shrinks s s'
  unfolding at_body
  at_body-Shrinks none s s' e = cc
  at_body-Shrinks (some (b, rest)) s s' e = unchanged s s' (ground arith) (ground arith)

  at_failure-Shrinks :
      (r : Option (Parse × List Parse)) (s s' : Server S O Q)
      → at_failure p g sem r s ≡ some s'
      → Shrinks s s'
  unfolding at_failure
  at_failure-Shrinks none s s' e = cc
  at_failure-Shrinks (some (b, rest)) s s' e = subst (Shrinks s) (some-injective _ _ e) (record {
    same_idx = (leave_by_exception-Shrinks b.id (record s { parses = rest })).same_idx;
    keeps = (leave_by_exception-Shrinks b.id (record s { parses = rest })).keeps;
  })

  at_job-Shrinks :
      (m : Connection S O → Connection S O) (r : Option (Job × List Job)) (s s' : Server S O Q)
      → at_job p g sem m r s ≡ some s'
      → Shrinks s s'
  unfolding at_job
  at_job-Shrinks m none s s' e = cc
  at_job-Shrinks m (some (j, rest)) s s' e = subst (Shrinks s) (some-injective _ _ e) (record {
    same_idx = (serve-Shrinks m j (record s { jobs = rest })).same_idx;
    keeps = (serve-Shrinks m j (record s { jobs = rest })).keeps;
  })

  at_destroy-Shrinks :
      (id : ℕ) (f : Fiber) (s s' : Server S O Q)
      → at_destroy p g sem id f s ≡ some s'
      → Shrinks s s'
  unfolding at_destroy
  at_destroy-Shrinks id finished s s' e = unchanged s s' (ground arith) (ground arith)
  at_destroy-Shrinks id absent s s' e = cc
  at_destroy-Shrinks id _ s s' e = cc

  pub IsTracked-Shrinks : (s t : Server S O Q) → Shrinks s t → IsTracked s → IsTracked t
  IsTracked-Shrinks s t h b = rw h.same_idx (h.keeps (s.connection_idx + 1) b)
