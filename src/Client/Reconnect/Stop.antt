-- ===== src/Client/Reconnect/Stop.antt =====
-- src/include/smf/reconnect_client.h: calls of `connect` and of `stop`, attempts that are under way
-- and pauses, as they interleave. A pause that is over calls `connect` and stays in the gate for as
-- long as that does; the two are counted as one. Closing a closed gate aborts, and is no step.
pub mod Ends
use smf.Prelude.{
  ℕ, zero, suc, ◌+◌, ◌≡◌, refl, ap, sym, ◌∙◌, Bool, true, false, not, ◌&&◌, List, [], ◌∷◌, ◌++◌,
  Option, none, some, arith, inl, inr, ◌==◌, if◌then◌else◌, sum_by, Bool-cases, Option-cases,
}
use mathlib.Core.Path.{subst}
use mathlib.Core.Option.{some-injective}
use smf.Rpc.Future.{Completion, ready, failed, remote_connection_error}
use smf.Client.Reconnect.{Reconnecting, attempted, pauses}

-- `connecting` and `sleeping` count who is in `reconnect_gate_`.
pub record Retrying : Type 0 where
  pub state : Reconnecting
  pub conn_valid : Bool
  pub connecting : ℕ
  pub sleeping : ℕ
  pub client_stopped : Bool

pub data Event : Type 0 where
  -- `connect` is called, and `reconnect` of the client brings an outcome
  connects : Event
  reconnected : (random : ℕ) → Completion → Event
  -- a pause is over
  wakes : Event
  -- the connection is lost
  breaks : Event
  -- `stop` is called, and the gate is left, so that the client is stopped
  stops client_stops : Event

unfoldable pub connect_once : Retrying → Retrying
connect_once s =
    if s.conn_valid
    then s
    else if s.state.gate_closed
    then s
    else record s { connecting = suc s.connecting }

abbrev pub succeeded : Completion → Bool
succeeded (ready u) = true
succeeded (failed x) = false

after_attempt : (n : ℕ) → Bool → Option ℕ × Reconnecting → Retrying → Retrying
after_attempt n valid (none, r) s = record s { state = r; conn_valid = valid; connecting = n }
after_attempt n valid (some ms, r) s = record s {
  state = r;
  conn_valid = valid;
  connecting = n;
  sleeping = suc s.sleeping;
}

end_attempt : ℕ → (random : ℕ) → Completion → Retrying → Option Retrying
unfolding attempted after_attempt
end_attempt zero random outcome s = none
end_attempt (suc n) random outcome s =
    some
      (after_attempt n (succeeded outcome) (attempted s.state.gate_closed random outcome s.state) s)

wake : ℕ → Retrying → Option Retrying
unfolding connect_once
wake zero s = none
wake (suc n) s = some (connect_once (record s { sleeping = n }))

unfoldable pub step : Event → Retrying → Option Retrying
unfolding connect_once end_attempt wake
step connects s = some (connect_once s)
step (reconnected random outcome) s = end_attempt s.connecting random outcome s
step wakes s = wake s.sleeping s
step breaks s = some (record s { conn_valid = false })
step stops s =
    if s.state.gate_closed
    then none
    else some (record s { state = record s.state { gate_closed = true } })
step client_stops s =
    if s.state.gate_closed && (s.connecting == 0 && s.sleeping == 0)
    then some (record s { conn_valid = false; client_stopped = true })
    else none

unfoldable pub run : List Event → Retrying → Option Retrying
run [] s = some s
run (x ∷ xs) s = elim (step x s) [ none ↦ none | some s' ↦ run xs s' ]
