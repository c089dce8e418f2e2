-- ===== src/Server/Machine/Tracked/Runs.antt =====
-- What each event does to the open connections, an accept included.
use smf.Prelude.{◌+◌, ◌^◌, ◌<◌, ◌≡◌, Bool, true, false, ◌∷◌, some, arith}
use smf.Rpc.RecvContext.{Platform}
use smf.Server.Semaphore.{Semaphore}
use smf.Server.Dispatch.{Config, insert}
use smf.Server.Machine.{
  Server, Event, accepted, loop_tested, header_read, header_failed, granted, body_read, body_failed,
  served, destroyed, step, accept,
}
use smf.Server.Machine.Connections.{contains_above}
use smf.Server.Machine.Tracked.{
  IsTracked, Shrinks, at_test-Shrinks, at_header-Shrinks, at_header_failure-Shrinks,
  at_grant-Shrinks, at_body-Shrinks, at_failure-Shrinks, at_job-Shrinks, at_destroy-Shrinks,
}

module _ {S O Q : Type 0} (p : Platform) (g : Config S O) (sem : Semaphore Q) where
  abbrev pub is_accept : Event S O → Bool
  is_accept (accepted i o) = true
  is_accept _ = false

  pub step-Shrinks :
      (e : Event S O) (s s' : Server S O Q)
      → is_accept e ≡ false
      → step p g sem e s ≡ some s'
      → Shrinks p g sem s s'
  unfolding step
  step-Shrinks (accepted i o) s s' other done = cc
  step-Shrinks (loop_tested id) s s' other done = at_test-Shrinks p g sem id _ s s' done
  step-Shrinks (header_read id) s s' other done = at_header-Shrinks p g sem id _ s s' done
  step-Shrinks (header_failed id) s s' other done = at_header_failure-Shrinks p g sem id _ s s' done
  step-Shrinks (granted id) s s' other done = at_grant-Shrinks p g sem id _ s s' done
  step-Shrinks (body_read k) s s' other done = at_body-Shrinks p g sem _ s s' done
  step-Shrinks (body_failed k) s s' other done = at_failure-Shrinks p g sem _ s s' done
  step-Shrinks (served k m) s s' other done = at_job-Shrinks p g sem m _ s s' done
  step-Shrinks (destroyed id) s s' other done = at_destroy-Shrinks p g sem id _ s s' done

  pub accept-IsTracked :
      (i : S) (o : O) (s : Server S O Q)
      → s.connection_idx + 1 < 2 ^ 64
      → IsTracked p g sem s
      → IsTracked p g sem (accept p g sem i o s)
        × ((accept p g sem i o s).connection_idx ≡ s.connection_idx + 1)
        × ((accept p g sem i o s).open_connections ≡ (s.connection_idx + 1) ∷ s.open_connections)
  unfolding accept insert
  accept-IsTracked i o s room b =
      let fresh =
        contains_above (s.connection_idx + 1) (s.connection_idx + 1) s.open_connections b
          (omega arith) in
      (ground (arith, fresh), ground arith, ground (arith, fresh))
