-- ===== src/Server/Tests.antt =====
-- The server at concrete values.
use smf.Prelude.{
  ℕ, ◌+◌, ◌≡◌, ◌≢◌, inl, inr, refl, true, false, List, [], ◌∷◌, Option, none, some, arith, ◌==◌,
  if◌then◌else◌,
}
use smf.Samples.{
  list_input, list_output, sample_platform, sample_header, sample_letter, sample_envelope,
  with_bytes, counter,
}
use smf.Rpc.Future.{ready, ◌>>=◌}
use smf.Rpc.Header.{Header}
use smf.Rpc.Connection.{Connection, has_error, set_error, disable, connection}
use smf.Rpc.RecvContext.{RecvContext}
use smf.Rpc.Framing.{received, frame}
use smf.Server.Stats.{no_stats, inc_u64}
use smf.Server.Router.{
  MethodHandle, Service, get_handle_for_request, register_service, get_handle-register,
}
use smf.Server.Dispatch.{Config, Served, do_dispatch_rpc, cleanup_dispatch_rpc, contains}
use smf.Server.Dispatch.Laws.{do_dispatch-rejects, do_dispatch-replies}
use smf.Server.Machine.{
  Server, Event, Fiber, Parse, Job, accepted, loop_tested, header_read, header_failed, granted,
  body_read, body_failed, served, destroyed, waiting, parsing, absent, finished, reading, update,
  cleanup, step, run,
}
use smf.Server.Machine.Connections.{cleanup_closes}
use smf.Server.Dispatch.Keeps.{KeepsEnabled, set_error-enabled}
use smf.Server.Machine.Consistent.{IsConsistent, run-IsConsistent}
use smf.Server.Machine.Starved.{oversized_starves}
use smf.Server.Machine.Counter.{closing_counts_twice}

abbrev pub echo : MethodHandle
echo ctx = ready sample_envelope

abbrev pub echoes : ℕ → Option MethodHandle
echoes id = if id == 5 then some echo else none

abbrev pub echo_service : Service
echo_service = record { service_name = "echo"; service_id = 1; method_for_request_id = echoes }

abbrev pub sample_config : Config (List ℕ) (List ℕ)
sample_config = record {
  io = list_input;
  out = list_output;
  debug = false;
  format_compression = λ c. "";
  routes = echo_service ∷ [];
  in_filters = [];
  out_filters = [];
}

abbrev sample_served : Served (List ℕ) (List ℕ)
sample_served = record { conn = with_bytes []; stats = no_stats }

get_handle-register_example :
    get_handle_for_request (register_service [] echo_service) 5 ≡ some echo
unfolding get_handle_for_request
get_handle-register_example = get_handle-register [] echo_service 5

abbrev unrouted : RecvContext
unrouted = record { header = record sample_header { meta = 6 }; payload = 4 ∷ 6 ∷ [] }

no_route :
    get_handle_for_request sample_config.routes (smf.Rpc.RecvContext.request_id unrouted) ≡ none
unfolding get_handle_for_request smf.Rpc.RecvContext.request_id
no_route = refl

do_dispatch-rejects_example :
    let (r, w') = do_dispatch_rpc sample_config (λ k. k) unrouted sample_served in
    (has_error w'.conn ≡ true) × (w'.conn.ostream ≡ [])
do_dispatch-rejects_example =
    do_dispatch-rejects sample_config (λ k. k) unrouted sample_served (inr (inl no_route))

id_not_zero : smf.Rpc.RecvContext.request_id (received sample_letter) ≢ 0
unfolding smf.Rpc.RecvContext.request_id received
id_not_zero = omega arith

routed :
    get_handle_for_request sample_config.routes
      (smf.Rpc.RecvContext.request_id (received sample_letter))
    ≡ some echo
unfolding get_handle_for_request smf.Rpc.RecvContext.request_id received
routed = refl

not_compressed : (received sample_letter).header.compression ≡ 0
unfolding received
not_compressed = refl

passes :
    smf.Filter.Apply.rpc_filter_apply sample_config.in_filters (received sample_letter)
    ≡ ready (received sample_letter)
unfolding smf.Filter.Apply.rpc_filter_apply
passes = refl

answers :
    (echo (received sample_letter) >>= smf.Filter.Apply.rpc_filter_apply sample_config.out_filters)
    ≡ ready sample_envelope
unfolding smf.Filter.Apply.rpc_filter_apply
answers = refl

stays_valid : smf.Rpc.Connection.is_valid list_input (with_bytes []) ≡ true
unfolding smf.Rpc.Connection.is_valid
stays_valid = refl

do_dispatch-replies_example :
    let (r, w') = do_dispatch_rpc sample_config (λ k. k) (received sample_letter) sample_served in
    (r ≡ ready tt)
    × (w'.conn.ostream ≡ frame sample_letter)
    × (w'.stats ≡ record no_stats {
      in_bytes = smf.Server.Stats.add_u64 0 ((received sample_letter).header.size + 2);
      out_bytes = 18;
    })
unfolding received
do_dispatch-replies_example =
    do_dispatch-replies sample_config (λ k. k) (received sample_letter) sample_served echo
      (received sample_letter) sample_envelope refl id_not_zero routed passes not_compressed answers
      stays_valid

abbrev errored : Served (List ℕ) (List ℕ)
errored = record { conn = record (with_bytes []) { error = some "bad" }; stats = no_stats }

errored_has_error : has_error errored.conn ≡ true
unfolding has_error
errored_has_error = refl

one_is_open : contains (2 ∷ 1 ∷ []) 1 ≡ true
unfolding contains
one_is_open = refl

cleanup_closes_example :
    let after = cleanup_dispatch_rpc 1 (errored, 2 ∷ 1 ∷ []) in
    ((j : ℕ) → contains after.1 j ≡ (if 1 == j then false else contains (2 ∷ 1 ∷ []) j))
    × (after.0.conn ≡ disable errored.conn)
    × (after.0.stats.bad_requests ≡ 1)
    × (cleanup_dispatch_rpc 1 after ≡ after)
cleanup_closes_example =
    cleanup_closes 1 3 errored (2 ∷ 1 ∷ []) (omega arith, (omega arith, tt)) errored_has_error
      one_is_open

-- One connection, whose header is read and whose body takes too long.
abbrev pub sample_server : Server (List ℕ) (List ℕ) ℕ
sample_server = record {
  connections = λ i. with_bytes (frame sample_letter);
  fibers = λ i. if i == 1 then reading else absent;
  open_connections = 1 ∷ [];
  connection_idx = 1;
  stats = no_stats;
  resources_available = 100;
  parses = [];
  jobs = [];
}

abbrev slow_body : List (Event (List ℕ) (List ℕ))
slow_body = loop_tested 1 ∷ header_read 1 ∷ granted 1 ∷ body_failed 0 ∷ []

abbrev pub Machine : Type 0
Machine = Server (List ℕ) (List ℕ) ℕ

sample_server-IsConsistent : IsConsistent sample_platform sample_config counter sample_server
unfolding contains
sample_server-IsConsistent = ((omega arith, tt), λ j lo hi. ground arith)

-- A connection comes; meanwhile the handler of the first one's request runs, that one breaks, and is
-- closed once the handler is done.
abbrev broken_peer : List (Event (List ℕ) (List ℕ))
broken_peer =
    loop_tested 1
    ∷ header_read 1
    ∷ granted 1
    ∷ body_read 0
    ∷ accepted [] []
    ∷ served 0 (set_error "bad")
    ∷ []

broken_peer_runs :
    (t : Machine) × (run sample_platform sample_config counter broken_peer sample_server ≡ some t)
unfolding run step smf.Rpc.Connection.is_valid smf.Rpc.RecvContext.parse_header
    smf.Rpc.RecvContext.check_header frame smf.Rpc.Header.to_bytes smf.Rpc.Header.of_bytes
broken_peer_runs = (_, refl)

set_error-KeepsEnabled : KeepsEnabled (λ (c : Connection (List ℕ) (List ℕ)). set_error "bad" c)
set_error-KeepsEnabled c = set_error-enabled sample_config "bad" c

run-IsConsistent_example : IsConsistent sample_platform sample_config counter broken_peer_runs.0
run-IsConsistent_example =
    run-IsConsistent sample_platform sample_config counter broken_peer sample_server
      broken_peer_runs.0 (omega arith) (set_error-KeepsEnabled, tt) sample_server-IsConsistent
      broken_peer_runs.1

-- Its connection is in error and its loop is left.
abbrev closing_server : Machine
closing_server = record sample_server {
  connections = λ i. errored.conn;
  fibers = λ i. finished;
  stats = record no_stats { active_connections = 1 };
}

closing_is_open : contains closing_server.open_connections 1 ≡ true
unfolding contains
closing_is_open = refl

closing_is_idle : smf.Server.Machine.has_job 1 closing_server.jobs ≡ false
unfolding smf.Server.Machine.has_job
closing_is_idle = refl

closing_counts_twice_example :
    (t : Machine) × (step sample_platform sample_config counter
        (destroyed 1)
        (cleanup sample_platform sample_config counter 1 closing_server)
      ≡ some t)
    × (t.stats.active_connections ≡ 18446744073709551615)
closing_counts_twice_example =
    closing_counts_twice sample_platform sample_config counter 1 closing_server (omega arith, tt)
      errored_has_error closing_is_open refl closing_is_idle

-- With one unit of memory left, a body of two never gets its units.
abbrev poor_server : Machine
poor_server = record sample_server { resources_available = 1 }

abbrev waits_for_two : List (Event (List ℕ) (List ℕ))
waits_for_two = loop_tested 1 ∷ header_read 1 ∷ []

waits_for_two_runs :
    (t : Machine) × (run sample_platform sample_config counter waits_for_two poor_server ≡ some t)
    × (t.fibers 1 ≡ waiting sample_header)
unfolding run step smf.Rpc.Connection.is_valid smf.Rpc.RecvContext.parse_header
    smf.Rpc.RecvContext.check_header frame smf.Rpc.Header.to_bytes smf.Rpc.Header.of_bytes
waits_for_two_runs = (_, refl, refl)

oversized_starves_example :
    step sample_platform sample_config counter (granted 1) waits_for_two_runs.0 ≡ none
oversized_starves_example =
    oversized_starves sample_platform sample_config counter waits_for_two poor_server
      waits_for_two_runs.0 1 sample_header (omega arith) waits_for_two_runs.1 waits_for_two_runs.2
      (omega arith)
