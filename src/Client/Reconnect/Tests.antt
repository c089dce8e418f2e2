-- ===== src/Client/Reconnect/Tests.antt =====
-- A client that reconnects in the background, at concrete values.
use smf.Prelude.{◌+◌, ◌≡◌, refl, true, false, List, [], ◌∷◌, some}
use smf.Rpc.Future.{failed, remote_connection_error}
use smf.Client.Reconnect.Stop.{Retrying, Event, connects, reconnected, breaks, run}
use smf.Client.Reconnect.Stop.Ends.{attempts_ended, pauses_ended, ending, stop_ends}

-- An attempt is under way and a pause goes on, and `stop` has been called.
abbrev stopping : Retrying
stopping = record {
  state = record { backoff = 3; gate_closed = true };
  conn_valid = false;
  connecting = 1;
  sleeping = 1;
  client_stopped = false;
}

abbrev events : List Event
events = connects ∷ reconnected 5 (failed remote_connection_error) ∷ breaks ∷ []

events_run : (t : Retrying) × (run events stopping ≡ some t)
unfolding run smf.Client.Reconnect.Stop.step
events_run = (_, refl)

stop_ends_example :
    (events_run.0.connecting + attempts_ended events ≡ 1)
    × (events_run.0.sleeping + pauses_ended events ≡ 1)
    × ((t : Retrying) × (run (ending events_run.0.connecting events_run.0.sleeping) events_run.0
          ≡ some t)
        × (t.client_stopped ≡ true))
stop_ends_example = stop_ends events stopping events_run.0 refl events_run.1
