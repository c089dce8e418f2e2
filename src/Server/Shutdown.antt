-- ===== src/Server/Shutdown.antt =====
-- src/core/rpc_server.cc: `stop`. The accept loop is aborted, the inputs of the open connections are
-- shut, the gate of the replies is closed and left, and the admin server is stopped, while the
-- machine of Server/Machine goes on.
pub mod Drain
pub mod Finish
pub mod Quiet
mod Tests
use smf.Prelude.{
  ℕ, ◌+◌, Bool, true, false, List, [], ◌∷◌, ◌++◌, Option, none, some, pluck, ◌==◌, if◌then◌else◌,
}
use smf.Rpc.Future.{Future, ready, failed}
use smf.Rpc.Connection.{Connection}
use smf.Rpc.RecvContext.{Platform, RecvContext, parse_payload}
use smf.Server.Semaphore.{Semaphore}
use smf.Server.Dispatch.{Config, contains}
use smf.Server.Machine
use smf.Server.Machine.{
  Server, Event, Parse, Job, accepted, loop_tested, header_read, header_failed, granted, body_read,
  body_failed, served, destroyed, leave_by_exception, read_body,
}

-- How far `stop` has come.
pub data Phase : Type 0 where
  -- it was not called
  serving : Phase
  -- `abort_accept` was called; it waits for `stopped_`
  aborting : Phase
  -- the inputs are shut and the gate is closed; it waits for those that entered the gate
  draining : Phase
  -- it waits for the admin server
  stopping_admin : Phase
  stopped : Phase

pub record Stopping (S O Q : Type 0) : Type 0 where
  pub server : Server S O Q
  -- the accept loop runs: `stopped_` is not set
  pub accepting : Bool
  -- `admin_` is there
  pub admin : Bool
  pub phase : Phase

-- What `stop` relies on of seastar: the input of a socket can be shut, or that throws; entering a
-- closed gate throws before `with_gate` returns, or makes its future fail.
pub record Gates (S : Type 0) : Type 0 where
  pub shutdown_input : S → Future S
  pub with_gate_throws : Bool

pub data StopEvent (S O : Type 0) : Type 0 where
  -- an event of the machine
  happens : Event S O → StopEvent S O
  -- `accept` fails, on its own or since it was aborted
  accept_failed : StopEvent S O
  stop_called inputs_shut gate_left admin_stopped : StopEvent S O

-- The requests that are in the gate; one whose body could not be parsed does not enter it.
unfoldable pub in_gate : List Job → ℕ
in_gate [] = 0
in_gate (j ∷ jobs) = elim j.context [ none ↦ in_gate jobs | some ctx ↦ in_gate jobs + 1 ]

module _ {S O Q : Type 0} (p : Platform) (g : Config S O) (sem : Semaphore Q)
    (gates : Gates S) where
  shut_stream : Future S → Connection S O → Connection S O
  shut_stream (failed x) c = c
  shut_stream (ready i) c = record c { istream = i }

  unfoldable pub shut_inputs : Server S O Q → Server S O Q
  unfolding shut_stream
  shut_inputs s = record s {
    connections = λ id.
        if contains s.open_connections id
        then shut_stream (gates.shutdown_input (s.connections id).istream) (s.connections id)
        else s.connections id;
  }

  -- A body comes after the gate was closed. Its units were granted and are not signalled.
  refused : Parse → Server S O Q → Server S O Q
  refused b s =
      let read = record (read_body p g sem b s) { jobs = s.jobs } in
      if gates.with_gate_throws then leave_by_exception p g sem b.id read else read

  read_late : Option RecvContext → Parse → Server S O Q → Server S O Q
  unfolding refused
  read_late none b s = read_body p g sem b s
  read_late (some ctx) b s = refused b s

  late_body : Option (Parse × List Parse) → Server S O Q → Option (Server S O Q)
  unfolding read_late
  late_body none s = none
  late_body (some (b, rest)) s = some (
      read_late (parse_payload p g.io b.header (s.connections b.id)).0 b
        (record s { parses = rest }))

  -- The machine with the gate closed.
  unfoldable pub late : Event S O → Server S O Q → Option (Server S O Q)
  unfolding late_body
  late (accepted i o) s = none
  late (body_read k) s = late_body (pluck k s.parses) s
  late (loop_tested id) s = Machine.step p g sem (loop_tested id) s
  late (header_read id) s = Machine.step p g sem (header_read id) s
  late (header_failed id) s = Machine.step p g sem (header_failed id) s
  late (granted id) s = Machine.step p g sem (granted id) s
  late (body_failed k) s = Machine.step p g sem (body_failed k) s
  late (served k meanwhile) s = Machine.step p g sem (served k meanwhile) s
  late (destroyed id) s = Machine.step p g sem (destroyed id) s

  -- `accept` gives no connection once it has failed or was aborted.
  unfoldable pub serve_event : Phase → Bool → Event S O → Server S O Q → Option (Server S O Q)
  unfolding late
  serve_event serving accepting (accepted i o) s =
      if accepting then Machine.step p g sem (accepted i o) s else none
  serve_event aborting accepting (accepted i o) s = none
  serve_event serving accepting e s = Machine.step p g sem e s
  serve_event aborting accepting e s = Machine.step p g sem e s
  serve_event _ accepting e s = late e s

  abbrev with_server : Option (Server S O Q) → Stopping S O Q → Option (Stopping S O Q)
  with_server none s = none
  with_server (some t) s = some (record s { server = t })

  -- `stopped_.get_future().then(…)`: each open connection has its input shut, then the gate closes.
  shut : Bool → Phase → Stopping S O Q → Option (Stopping S O Q)
  unfolding shut_inputs
  shut false aborting s = some (record s { server = shut_inputs s.server; phase = draining })
  shut _ _ s = none

  -- The gate's close returns when all who entered have left.
  leave_gate : Phase → Stopping S O Q → Option (Stopping S O Q)
  leave_gate draining s =
      if in_gate s.server.jobs == 0
      then some (record s { phase = if s.admin then stopping_admin else stopped })
      else none
  leave_gate _ s = none

  stop_admin : Phase → Stopping S O Q → Option (Stopping S O Q)
  stop_admin stopping_admin s = some (record s { phase = stopped })
  stop_admin _ s = none

  call_stop : Phase → Stopping S O Q → Option (Stopping S O Q)
  call_stop serving s = some (record s { phase = aborting })
  call_stop _ s = none

  unfoldable pub step : StopEvent S O → Stopping S O Q → Option (Stopping S O Q)
  unfolding serve_event shut leave_gate stop_admin call_stop
  step (happens e) s = with_server (serve_event s.phase s.accepting e s.server) s
  step accept_failed s = if s.accepting then some (record s { accepting = false }) else none
  step stop_called s = call_stop s.phase s
  step inputs_shut s = shut s.accepting s.phase s
  step gate_left s = leave_gate s.phase s
  step admin_stopped s = stop_admin s.phase s

  unfoldable pub run : List (StopEvent S O) → Stopping S O Q → Option (Stopping S O Q)
  run [] s = some s
  run (e ∷ es) s = elim (step e s) [ none ↦ none | some s' ↦ run es s' ]
