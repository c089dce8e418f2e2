-- ===== src/Server/Machine/Counter.antt =====
-- What the counter of active connections says after an error.
use smf.Prelude.{ℕ, ◌+◌, ◌-◌, ◌%◌, ◌^◌, ◌≡◌, true, false, some, arith}
use smf.Rpc.Connection.{has_error}
use smf.Rpc.RecvContext.{Platform}
use smf.Server.Stats.{dec_u64}
use smf.Server.Semaphore.{Semaphore}
use smf.Server.Dispatch.{Config, contains, cleanup_dispatch_rpc}
use smf.Server.Machine.{
  Server, destroyed, absent, finished, step, cleanup, at_destroy, has_job, update,
}
use smf.Server.Machine.Connections.{contains-erase}
use smf.Server.Machine.Tracked.{IsTracked}

module _ {S O Q : Type 0} (p : Platform) (g : Config S O) (sem : Semaphore Q) where
  -- On a server whose open connections are tracked, an open connection that is in error, whose loop
  -- is left and that has no request in flight is taken off `active_connections` twice, by its
  -- cleanup and when it is then destroyed.
  pub closing_counts_twice :
      (id : ℕ) (s : Server S O Q)
      → IsTracked p g sem s
      → has_error (s.connections id) ≡ true
      → contains s.open_connections id ≡ true
      → s.fibers id ≡ finished
      → has_job id s.jobs ≡ false
      → (t : Server S O Q) × (step p g sem (destroyed id) (cleanup p g sem id s) ≡ some t)
        × (t.stats.active_connections ≡ (s.stats.active_connections % 2 ^ 64 + 2 ^ 64 - 2) % 2 ^ 64)
  unfolding step at_destroy cleanup cleanup_dispatch_rpc
  closing_counts_twice id s b e opened left idle = (
    record (cleanup p g sem id s) {
      fibers = update s.fibers id absent;
      stats = record (cleanup p g sem id s).stats {
        active_connections = dec_u64 (cleanup p g sem id s).stats.active_connections;
      };
    },
    ground (arith, contains-erase id (s.connection_idx + 1) s.open_connections id b),
    ground arith,
  )
