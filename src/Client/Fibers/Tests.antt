-- ===== src/Client/Fibers/Tests.antt =====
-- The fibers of a client at concrete values.
use smf.Prelude.{◌^◌, ℕ, ◌≡◌, refl, ◌<◌, true, false, List, [], ◌∷◌, ◌++◌, some, arith}
use smf.Samples.{counter, sample_platform, sample_envelope}
use smf.Rpc.Future.{ready}
use smf.Rpc.Envelope.{Envelope, size}
use smf.Client.{rpc_client, no_header}
use smf.Client.Tests.{sample_config}
use smf.Client.Calls
use smf.Client.Fibers.{
  fibers, Fibers, Event, sends, has_memory, has_turn, written, reads, reads_late, stops, connects,
  begins_reconnect, reopens, run,
}
use smf.Client.Fibers.Seen.{seen, IsSerial, fibers-IsSerial}
use smf.Client.Fibers.Refines.{all_calls, run-refines}
use smf.Client.Fibers.Memory.{units}
use smf.Client.Fibers.Blocked.{large_request_blocks}

-- The memory is for two requests of 18 bytes. They are sent, the second of which waits for its turn
-- while a reconnect begins.
abbrev events : List (Event sample_platform sample_config counter)
events =
    connects (ready ([], []))
    ∷ sends sample_envelope
    ∷ sends sample_envelope
    ∷ has_memory
    ∷ has_turn
    ∷ has_memory
    ∷ written 0 false
    ∷ begins_reconnect
    ∷ has_turn
    ∷ reads false
    ∷ written 0 true
    ∷ reopens (ready ([], []))
    ∷ reads true
    ∷ reads_late false no_header
    ∷ []

abbrev Run : List (Event sample_platform sample_config counter) → ℕ → Type 0
Run xs memory =
    (t : Fibers (List ℕ) (List ℕ) ℕ) × (run sample_platform sample_config counter xs
        (fibers sample_platform sample_config counter memory true)
      ≡ some t)

events_run : Run events 36
unfolding run fibers smf.Client.Fibers.step smf.Rpc.Connection.is_valid
    smf.Rpc.Connection.connection smf.Client.SlotMap.find smf.Filter.Apply.rpc_filter_apply
    smf.Client.SlotMap.insert size smf.Rpc.Envelope.send smf.Rpc.Connection.disable
events_run = (_, refl)

run-refines_example :
    (Calls.run sample_platform sample_config
        (all_calls sample_platform sample_config counter events)
        (seen sample_platform sample_config counter
          (fibers sample_platform sample_config counter 36 true))
      ≡ seen sample_platform sample_config counter events_run.0)
    × IsSerial sample_platform sample_config counter events_run.0
run-refines_example =
    run-refines sample_platform sample_config counter events
      (fibers sample_platform sample_config counter 36 true) events_run.0
      (fibers-IsSerial sample_platform sample_config counter 36 true) events_run.1

-- A request waits for more than the 17 bytes that there are.
abbrev waiting : Fibers (List ℕ) (List ℕ) ℕ
waiting = record (fibers sample_platform sample_config counter 17 true) {
  client = record (rpc_client sample_platform sample_config true) {
    writes = sample_envelope ∷ sample_envelope ∷ [];
  };
}

abbrev later : List (Event sample_platform sample_config counter)
later = connects (ready ([], [])) ∷ sends sample_envelope ∷ reads true ∷ begins_reconnect ∷ []

later_run :
    (t : Fibers (List ℕ) (List ℕ) ℕ) × (run sample_platform sample_config counter later waiting
      ≡ some t)
unfolding run fibers smf.Client.Fibers.step smf.Rpc.Connection.is_valid
    smf.Rpc.Connection.connection smf.Client.SlotMap.find smf.Filter.Apply.rpc_filter_apply
    smf.Client.SlotMap.insert size smf.Rpc.Envelope.send smf.Rpc.Connection.disable
later_run = (_, refl)

small : units sample_platform sample_config counter waiting < 2 ^ 63
unfolding fibers
small = omega arith

large : units sample_platform sample_config counter waiting < size sample_envelope
unfolding fibers size
large = omega arith

large_request_blocks_example :
    (more : List Envelope) × (later_run.0.client.writes
      ≡ sample_envelope ∷ (sample_envelope ∷ [] ++ more))
large_request_blocks_example =
    large_request_blocks sample_platform sample_config counter later sample_envelope
      (sample_envelope ∷ []) waiting later_run.0 small large refl later_run.1
