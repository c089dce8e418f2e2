-- ===== src/Client/Tests.antt =====
-- The client at concrete values.
use smf.Prelude.{
  ℕ, ◌+◌, ◌%◌, ◌≡◌, ◌^◌, refl, true, false, List, [], ◌∷◌, ◌++◌, map, none, some, arith, ◌==◌,
  if◌then◌else◌,
}
use mathlib.Core.List.{reverse}
use smf.Samples.{
  list_input, list_output, sample_platform, sample_letter, sample_envelope,
  sample_letter-IsSendable, with_bytes,
}
use smf.Rpc.Future.{ready, failed, remote_connection_error}
use smf.Rpc.Envelope.{Envelope, map_header}
use smf.Filter.Apply.{rpc_filter_apply}
use smf.Rpc.Connection.{Connection, connection, set_error}
use smf.Rpc.Framing.{received, frame}
use smf.Rpc.Framing.RoundTrip.{Awaits}
use smf.Client.SlotMap.{find}
use smf.Client.{
  rpc_client, Config, Client, is_conn_valid, do_reads, raw_send, promised, fail_outstanding_futures,
  connect, reconnect,
}
use smf.Client.Calls.{Call, sends, writes_oldest, reads, stops, connects, reconnects, run}
use smf.Client.Promises.{IsLinear, rpc_client-IsLinear, run-IsLinear}
use smf.Client.Counts.{outstanding}
use smf.Client.Sending.{
  broken, reconnect_in_plaintext, raw_send-registers, taken_session_loses_promise,
  all_requests_fail,
}
use smf.Client.Reconnect.{after_failures, after_failures-backoff}
use smf.Client.Response.{response_resolves}

abbrev pub sample_config : Config (List ℕ) (List ℕ)
sample_config = record {
  io = list_input;
  out = list_output;
  debug = false;
  in_filters = [];
  out_filters = [];
}

-- One request, of session 3, waits for its response, which is on the wire.
abbrev pub wire : Connection (List ℕ) (List ℕ)
wire = with_bytes (frame sample_letter ++ 1 ∷ [])

abbrev pub sample_client : Client (List ℕ) (List ℕ)
sample_client = record {
  conn = some wire;
  encrypted = true;
  creds = false;
  read_counter = 1;
  session_idx = 3;
  rpc_slots = (3, 0) ∷ [];
  gate_closed = false;
  writes = [];
  next_promise = 1;
  resolved = [];
}

pub sample_client_valid : is_conn_valid sample_platform sample_config sample_client ≡ true
unfolding is_conn_valid smf.Rpc.Connection.is_valid
sample_client_valid = refl

sample_slot : find 3 sample_client.rpc_slots ≡ some 0
unfolding find
sample_slot = refl

pub nothing_else : find 3 [] ≡ none
unfolding find
nothing_else = refl

response_resolves_example :
    let after = do_reads sample_platform sample_config false sample_client in
    (after.resolved ≡ (0, ready (some (received sample_letter))) ∷ [])
    × ((t : ℕ) → find t after.rpc_slots ≡ (if 3 == t then none else find t ((3, 0) ∷ [])))
    × ((k' : Connection (List ℕ) (List ℕ)) × (after.conn ≡ some k')
        × Awaits sample_platform list_input k' (1 ∷ []))
response_resolves_example =
    response_resolves sample_platform sample_config sample_letter (1 ∷ []) sample_client wire 0 refl
      refl sample_client_valid sample_letter-IsSendable (record { pending = refl; idle = refl })
      (nothing_else, tt) sample_slot

abbrev fresh_client : Client (List ℕ) (List ℕ)
fresh_client = rpc_client sample_platform sample_config true

abbrev calls : List (Call sample_platform sample_config)
calls =
    connects (ready (frame sample_letter, []))
    ∷ sends sample_envelope
    ∷ writes_oldest false
    ∷ reads false
    ∷ sends sample_envelope
    ∷ writes_oldest true
    ∷ stops
    ∷ reconnects (failed remote_connection_error)
    ∷ []

run-IsLinear_example : IsLinear (run sample_platform sample_config calls fresh_client)
run-IsLinear_example =
    run-IsLinear sample_platform sample_config calls fresh_client
      (rpc_client-IsLinear sample_platform sample_config true)

all_requests_fail_example :
    let after = fail_outstanding_futures sample_platform sample_config sample_client in
    (after.rpc_slots ≡ [])
    × (after.resolved ≡ reverse (map broken ((3, 0) ∷ [])) ++ [])
    × (is_conn_valid sample_platform sample_config after ≡ false)
all_requests_fail_example = all_requests_fail sample_platform sample_config sample_client

pub session_four_free :
    find ((sample_client.session_idx + 1) % 2 ^ 16) sample_client.rpc_slots ≡ none
unfolding find
session_four_free = refl

abbrev fourth_envelope : Envelope
fourth_envelope = map_header (λ h. record h { session = 4 }) sample_envelope

nothing_filtered :
    rpc_filter_apply sample_config.out_filters fourth_envelope ≡ ready fourth_envelope
unfolding rpc_filter_apply
nothing_filtered = refl

raw_send-registers_example :
    let (sent, c') = raw_send sample_platform sample_config sample_envelope sample_client in
    (sent ≡ promised 1)
    × ((t : ℕ) → find t c'.rpc_slots ≡ (if 4 == t then some 1 else find t ((3, 0) ∷ [])))
    × (c'.writes ≡ fourth_envelope ∷ [])
    × (c'.resolved ≡ [])
raw_send-registers_example =
    raw_send-registers sample_platform sample_config sample_envelope fourth_envelope sample_client
      sample_client_valid refl session_four_free nothing_filtered

-- 65,536 requests later, session 3 is taken.
abbrev wrapped_client : Client (List ℕ) (List ℕ)
wrapped_client = record sample_client { session_idx = 2 }

wrapped_client-IsLinear : IsLinear wrapped_client
wrapped_client-IsLinear w = ground arith

wrapped_slot : find ((wrapped_client.session_idx + 1) % 2 ^ 16) wrapped_client.rpc_slots ≡ some 0
unfolding find
wrapped_slot = refl

wrapped_client_valid : is_conn_valid sample_platform sample_config wrapped_client ≡ true
unfolding is_conn_valid smf.Rpc.Connection.is_valid
wrapped_client_valid = refl

taken_session_loses_promise_example :
    ((raw_send sample_platform sample_config sample_envelope wrapped_client).1.rpc_slots
      ≡ (3, 0) ∷ [])
    × (outstanding 1
          (raw_send sample_platform sample_config sample_envelope wrapped_client).1.rpc_slots
        ≡ 0)
taken_session_loses_promise_example =
    taken_session_loses_promise sample_platform sample_config sample_envelope wrapped_client 0 refl
      wrapped_client_valid wrapped_client-IsLinear wrapped_slot

abbrev first_connected : Client (List ℕ) (List ℕ)
first_connected = record fresh_client {
  conn = some (connection [] []);
  encrypted = true;
  creds = false;
}

connects_first :
    connect sample_platform sample_config (ready ([], [])) fresh_client
    ≡ (ready tt, first_connected)
unfolding connect connection rpc_client
connects_first = refl

reconnect_in_plaintext_example :
    ((reconnect sample_platform sample_config (ready ([], [])) first_connected).0 ≡ ready tt)
    × ((reconnect sample_platform sample_config (ready ([], [])) first_connected).1.encrypted
        ≡ false)
reconnect_in_plaintext_example =
    reconnect_in_plaintext sample_platform sample_config ([], []) ([], []) fresh_client
      first_connected connects_first

after_failures-backoff_example :
    after_failures 7 (record { backoff = 0; gate_closed = false })
    ≡ record { backoff = 60; gate_closed = false }
after_failures-backoff_example = after_failures-backoff 7
