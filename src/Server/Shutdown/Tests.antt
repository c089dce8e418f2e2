-- ===== src/Server/Shutdown/Tests.antt =====
-- A server that is stopped while a request is in flight.
use smf.Prelude.{ℕ, ◌+◌, ◌≡◌, refl, true, false, List, [], ◌∷◌, some}
use smf.Samples.{sample_platform, sample_letter, counter}
use smf.Rpc.Future.{ready}
use smf.Rpc.Framing.{received}
use smf.Server.Machine.{served}
use smf.Server.Shutdown.{
  Stopping, Gates, StopEvent, happens, accept_failed, stop_called, inputs_shut, gate_left,
  admin_stopped, serving, draining, stopped, in_gate, run,
}
use smf.Server.Shutdown.Finish.{leaves_along, to_end, Finishes, stop-Finishes}
use smf.Server.Shutdown.Quiet.{IsQuiet, run-IsQuiet}
use smf.Server.Tests.{sample_config, sample_server}

-- A stream whose input is shut has no more bytes.
abbrev sample_gates : Gates (List ℕ)
sample_gates = record { shutdown_input = λ i. ready []; with_gate_throws = true }

abbrev State : Type 0
State = Stopping (List ℕ) (List ℕ) ℕ

abbrev busy : State
busy = record {
  server = record sample_server {
    jobs = record { id = 1; payload_size = 2; context = some (received sample_letter) } ∷ [];
  };
  accepting = true;
  admin = true;
  phase = serving;
}

abbrev stops : List (StopEvent (List ℕ) (List ℕ))
stops = stop_called ∷ accept_failed ∷ inputs_shut ∷ []

stops_run :
    (t : State) × (run sample_platform sample_config counter sample_gates stops busy ≡ some t)
    × (t.phase ≡ draining)
unfolding run smf.Server.Shutdown.step smf.Server.Shutdown.shut_inputs
stops_run = (_, refl, refl)

run-IsQuiet_example : IsQuiet sample_platform sample_config counter sample_gates stops_run.0
run-IsQuiet_example =
    run-IsQuiet sample_platform sample_config counter sample_gates stops busy stops_run.0 tt
      stops_run.1

abbrev closing : State
closing = record busy { accepting = false; phase = draining }

abbrev serves_one : List (StopEvent (List ℕ) (List ℕ))
serves_one = happens (served 0 (λ c. c)) ∷ []

serves_one_runs :
    (t : State) × (run sample_platform sample_config counter sample_gates serves_one closing
      ≡ some t)
unfolding run smf.Server.Shutdown.step smf.Server.Shutdown.late smf.Server.Machine.step
serves_one_runs = (_, refl)

stop-Finishes_example :
    (in_gate serves_one_runs.0.server.jobs
        + leaves_along sample_platform sample_config counter sample_gates serves_one closing
      ≡ 1)
    × Finishes sample_platform sample_config counter sample_gates
        (to_end sample_platform sample_config counter sample_gates serves_one_runs.0.phase
          serves_one_runs.0.admin serves_one_runs.0.server.jobs)
        serves_one_runs.0
unfolding in_gate
stop-Finishes_example =
    stop-Finishes sample_platform sample_config counter sample_gates serves_one closing
      serves_one_runs.0 tt serves_one_runs.1
