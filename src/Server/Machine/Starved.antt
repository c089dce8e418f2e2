-- ===== src/Server/Machine/Starved.antt =====
-- A body that is larger than all the memory of the server.
use smf.Prelude.{ℕ, ◌^◌, ◌<◌, ◌≡◌, refl, List, none, some, inl, inr, arith, Option-cases}
use smf.Rpc.Header.{Header}
use smf.Rpc.RecvContext.{Platform}
use smf.Server.Semaphore.{Semaphore}
use smf.Server.Dispatch.{Config}
use smf.Server.Machine.{Server, Event, granted, waiting, step, run, at_grant, grant}
use smf.Server.Machine.Memory.{units, units-run}

module _ {S O Q : Type 0} (p : Platform) (g : Config S O) (sem : Semaphore Q) where
  -- A semaphore does not grant more than it counts.
  wait-too_large : (n : ℕ) (q : Q) → sem.count q < n → sem.wait n q ≡ none
  wait-too_large n q h = elim (Option-cases (sem.wait n q)) [
    | inl blocked ↦ blocked
    | inr (q', free) ↦ absurd (omega (arith, sem.count-wait n q q' free))
  ]

  -- Over any run of a server that starts with fewer than 2 ^ 31 units, a connection whose header
  -- announces a body of more units than the server started with is never granted its units.
  pub oversized_starves :
      (es : List (Event S O)) (s s' : Server S O Q) (id : ℕ) (h : Header)
      → units p g sem s < 2 ^ 31
      → run p g sem es s ≡ some s'
      → s'.fibers id ≡ waiting h
      → units p g sem s < h.size
      → step p g sem (granted id) s' ≡ none
  unfolding step at_grant grant
  oversized_starves es s s' id h small ran at large =
      rw
        (
          at,
          wait-too_large h.size s'.resources_available
              (omega (arith, units-run p g sem es s s' small ran)),
        )
        refl
