-- ===== src/Server/Machine.antt =====
-- src/core/rpc_server.cc: connections that are read by fibers of their own, and requests in flight.
-- An event is what runs between two waits.
pub mod Memory
pub mod Connections
pub mod Tracked
pub mod InStep
pub mod Consistent
pub mod Counter
pub mod Jobs
pub mod Starved
use Prim.Native.String.{String}
use smf.Prelude.{
  ℕ, ◌+◌, Bool, false, not, ◌||◌, List, [], ◌∷◌, Option, none, some, length, pluck, ◌==◌,
  if◌then◌else◌,
}
use smf.Rpc.Future.{Future, Completion, ready, failed}
use smf.Rpc.Header.{Header}
use smf.Rpc.Connection.{Connection, connection, is_valid, set_error}
use smf.Rpc.RecvContext.{Platform, RecvContext, parse_header, parse_payload}
use smf.Server.Stats.{Stats, inc_u64, rpc_server_connection, destroy_connection}
use smf.Server.Semaphore.{Semaphore}
use smf.Server.Dispatch.{Config, Served, cleanup_dispatch_rpc, dispatch_rpc, contains, insert}

-- Where the fiber of a connection stands in `handle_one_client_session`.
pub data Fiber : Type 0 where
  -- no such connection
  absent : Fiber
  -- before the test of the loop
  reading : Fiber
  -- the test has passed, the header is being read
  awaiting : Fiber
  -- the header is read, its units are not granted yet
  waiting : Header → Fiber
  -- the units are granted, the body is being read
  parsing : Fiber
  -- the loop is left
  finished : Fiber

-- A body that is being read.
pub record Parse : Type 0 where
  pub id : ℕ
  pub header : Header

-- A call of `dispatch_rpc` in flight.
pub record Job : Type 0 where
  pub id : ℕ
  pub payload_size : ℕ
  pub context : Option RecvContext

pub record Server (S O Q : Type 0) : Type 0 where
  pub connections : ℕ → Connection S O
  pub fibers : ℕ → Fiber
  pub open_connections : List ℕ
  pub connection_idx : ℕ
  pub stats : Stats
  pub resources_available : Q
  pub parses : List Parse
  pub jobs : List Job

pub data Event (S O : Type 0) : Type 0 where
  -- `listener_->accept()` gives a connection
  accepted : S → O → Event S O
  -- the loop test of a connection
  loop_tested : ℕ → Event S O
  -- the header that a connection waits for is there, or its read fails
  header_read header_failed : ℕ → Event S O
  -- `resources_available.wait` returns
  granted : ℕ → Event S O
  -- one of the bodies being read is there, or it takes too long or its read fails: `with_timeout`
  -- hands either on as an exception
  body_read body_failed : ℕ → Event S O
  -- one of the requests in flight is handled; the function is what happens to its connection
  -- while the handler runs
  served : ℕ → (Connection S O → Connection S O) → Event S O
  -- the last pointer to a connection is dropped
  destroyed : ℕ → Event S O

unfoldable pub has_job : ℕ → List Job → Bool
has_job id [] = false
has_job id (j ∷ jobs) = j.id == id || has_job id jobs

abbrev pub update {ℓ} : {A : Type ℓ} → (ℕ → A) → ℕ → A → ℕ → A
update f k v i = if k == i then v else f i

module _ {S O Q : Type 0} (p : Platform) (g : Config S O) (sem : Semaphore Q) where
  -- A part of the server that one connection's continuations see, and the way back.
  abbrev pub serve_view : ℕ → Server S O Q → Served S O
  serve_view id s = record { conn = s.connections id; stats = s.stats }

  abbrev pub put_view : ℕ → Served S O → List ℕ → Server S O Q → Server S O Q
  put_view id w open_connections s = record s {
    connections = update s.connections id w.conn;
    stats = w.stats;
    open_connections = open_connections;
  }

  unfoldable pub accept : S → O → Server S O Q → Server S O Q
  unfolding insert
  accept istream ostream s =
      let id = inc_u64 s.connection_idx in
      record s {
        connection_idx = id;
        connections = update s.connections id (connection istream ostream);
        fibers = update s.fibers id reading;
        open_connections = insert id s.open_connections;
        stats = rpc_server_connection s.stats;
      }

  unfoldable pub cleanup : ℕ → Server S O Q → Server S O Q
  unfolding cleanup_dispatch_rpc
  cleanup id s =
      let (w, open_connections) = cleanup_dispatch_rpc id (serve_view id s, s.open_connections) in
      put_view id w open_connections s

  abbrev pub with_error : String → ℕ → Server S O Q → Server S O Q
  with_error e id s = record s {
    connections = update s.connections id (set_error e (s.connections id));
  }

  abbrev pub with_fiber : ℕ → Fiber → Server S O Q → Server S O Q
  with_fiber id f s = record s { fibers = update s.fibers id f }

  -- `.finally(cleanup)`, with the loop left.
  unfoldable pub leave_loop : ℕ → Server S O Q → Server S O Q
  unfolding cleanup
  leave_loop id s = with_fiber id finished (cleanup id s)

  -- An exception ends the loop: `.finally(cleanup)`, then the handler.
  unfoldable pub leave_by_exception : ℕ → Server S O Q → Server S O Q
  unfolding leave_loop
  leave_by_exception id s =
      cleanup id (with_error "handling client session exception" id (leave_loop id s))

  after_header : ℕ → Future (Option Header) → Server S O Q → Server S O Q
  unfolding leave_by_exception
  after_header id (failed x) s = leave_by_exception id s
  after_header id (ready none) s =
      with_fiber id reading (with_error "Error parsing connection header" id s)
  after_header id (ready (some h)) s = with_fiber id (waiting h) s

  -- `do_until([conn] { return !conn->is_valid(); }, …)`.
  unfoldable pub test_loop : ℕ → Server S O Q → Server S O Q
  unfolding leave_loop
  test_loop id s =
      if not (is_valid g.io (s.connections id)) then leave_loop id s else with_fiber id awaiting s

  unfoldable pub read_header : ℕ → Server S O Q → Server S O Q
  unfolding after_header
  read_header id s =
      let (hdr, c) = parse_header p g.io g.debug (s.connections id) in
      after_header id hdr (record s { connections = update s.connections id c })

  grant : ℕ → Header → Option Q → Server S O Q → Option (Server S O Q)
  grant id h none s = none
  grant id h (some q) s = some (record s {
    resources_available = q;
    parses = record { id = id; header = h } ∷ s.parses;
    fibers = update s.fibers id parsing;
  })

  -- The body is handed to a dispatch that runs on its own; the loop goes on.
  unfoldable pub read_body : Parse → Server S O Q → Server S O Q
  read_body b s =
      let (ctx, c) = parse_payload p g.io b.header (s.connections b.id) in
      record s {
        connections = update s.connections b.id c;
        fibers = update s.fibers b.id reading;
        jobs = record { id = b.id; payload_size = b.header.size; context = ctx } ∷ s.jobs;
      }

  unfoldable pub serve : (Connection S O → Connection S O) → Job → Server S O Q → Server S O Q
  serve meanwhile j s =
      let (w, open_connections, q) =
        dispatch_rpc g sem meanwhile j.payload_size j.id j.context (serve_view j.id s)
          s.open_connections s.resources_available in
      record (put_view j.id w open_connections s) { resources_available = q }

  at_test : ℕ → Fiber → Server S O Q → Option (Server S O Q)
  unfolding test_loop
  at_test id reading s = some (test_loop id s)
  at_test id _ s = none

  at_header : ℕ → Fiber → Server S O Q → Option (Server S O Q)
  unfolding read_header
  at_header id awaiting s = some (read_header id s)
  at_header id _ s = none

  at_header_failure : ℕ → Fiber → Server S O Q → Option (Server S O Q)
  unfolding leave_by_exception
  at_header_failure id awaiting s = some (leave_by_exception id s)
  at_header_failure id _ s = none

  at_grant : ℕ → Fiber → Server S O Q → Option (Server S O Q)
  unfolding grant
  at_grant id (waiting h) s = grant id h (sem.wait h.size s.resources_available) s
  at_grant id _ s = none

  at_body : Option (Parse × List Parse) → Server S O Q → Option (Server S O Q)
  unfolding read_body
  at_body none s = none
  at_body (some (b, rest)) s = some (read_body b (record s { parses = rest }))

  at_failure : Option (Parse × List Parse) → Server S O Q → Option (Server S O Q)
  unfolding leave_by_exception
  at_failure none s = none
  at_failure (some (b, rest)) s = some (leave_by_exception b.id (record s { parses = rest }))

  at_job :
      (Connection S O → Connection S O)
      → Option (Job × List Job)
      → Server S O Q
      → Option (Server S O Q)
  unfolding serve
  at_job meanwhile none s = none
  at_job meanwhile (some (j, rest)) s = some (serve meanwhile j (record s { jobs = rest }))

  at_destroy : ℕ → Fiber → Server S O Q → Option (Server S O Q)
  at_destroy id finished s =
      if contains s.open_connections id || has_job id s.jobs
      then none
      else some
          (record s { fibers = update s.fibers id absent; stats = destroy_connection s.stats })
  at_destroy id _ s = none

  -- `none`: the event cannot happen in this state.
  unfoldable pub step : Event S O → Server S O Q → Option (Server S O Q)
  unfolding accept at_test at_header at_header_failure at_grant at_body at_failure at_job at_destroy
      has_job
  step (accepted istream ostream) s = some (accept istream ostream s)
  step (loop_tested id) s = at_test id (s.fibers id) s
  step (header_read id) s = at_header id (s.fibers id) s
  step (header_failed id) s = at_header_failure id (s.fibers id) s
  step (granted id) s = at_grant id (s.fibers id) s
  step (body_read k) s = at_body (pluck k s.parses) s
  step (body_failed k) s = at_failure (pluck k s.parses) s
  step (served k meanwhile) s = at_job meanwhile (pluck k s.jobs) s
  step (destroyed id) s = at_destroy id (s.fibers id) s

  unfoldable pub run : List (Event S O) → Server S O Q → Option (Server S O Q)
  run [] s = some s
  run (e ∷ es) s = elim (step e s) [ none ↦ none | some s' ↦ run es s' ]
