-- ===== src/Client.antt =====
-- src/core/rpc_client.cc and src/include/smf/rpc_client.h.
pub mod SlotMap
pub mod Calls
pub mod Counts
pub mod Promises
pub mod Sending
pub mod Response
pub mod Request
pub mod Reconnect
pub mod Ahead
pub mod Fibers
pub mod Tests
use Prim.Native.String.{String}
use smf.Prelude.{
  ℕ, ◌+◌, ◌-◌, ◌%◌, ◌^◌, Bool, true, false, not, ◌&&◌, List, [], ◌∷◌, ◌++◌, Option, none, some, ltb,
  ◌==◌, if◌then◌else◌,
}
use smf.Rpc.Future.{
  Exception, Future, Completion, ready, failed, ◌>>=◌, runtime_error, invalid_connection_state,
  remote_connection_error, gate_closed_exception,
}
use smf.Rpc.Stream.{InputStream, OutputStream}
use smf.Rpc.Header.{Header}
use smf.Rpc.Envelope.{Envelope, map_header, send}
use smf.Rpc.Connection.{Connection, connection, is_valid, set_error, disable}
use smf.Rpc.RecvContext.{
  Platform, RecvContext, session, parse_header, parse_payload, compression_none,
}
use smf.Filter.Apply.{rpc_filter_apply}
use SlotMap.{Slots, find, insert, erase}

pub record Config (S O : Type 0) : Type 0 where
  pub io : InputStream S
  pub out : OutputStream O
  pub debug : Bool
  pub in_filters : List (RecvContext → Future RecvContext)
  pub out_filters : List (Envelope → Future Envelope)

-- What a promise was given.
abbrev pub Outcome : Type 0
Outcome = Future (Option RecvContext)

-- A work item is known by the number of its promise. `resolved` lists the promises that were given
-- a value or an exception, the latest first; `writes` are the calls of `dispatch_write` that wait
-- for `serialize_writes_`, the oldest first.
pub record Client (S O : Type 0) : Type 0 where
  pub conn : Option (Connection S O)
  pub encrypted : Bool
  pub creds : Bool
  pub read_counter : ℕ
  pub session_idx : ℕ
  pub rpc_slots : Slots
  pub gate_closed : Bool
  pub writes : List Envelope
  pub next_promise : ℕ
  pub resolved : List (ℕ × Outcome)

module _ {S O : Type 0} (p : Platform) (g : Config S O) where
  unfoldable pub rpc_client : (credentials : Bool) → Client S O
  rpc_client credentials = record {
    conn = none;
    encrypted = false;
    creds = credentials;
    read_counter = 0;
    session_idx = 0;
    rpc_slots = [];
    gate_closed = false;
    writes = [];
    next_promise = 0;
    resolved = [];
  }

  unfoldable pub is_conn_valid : Client S O → Bool
  is_conn_valid c = elim c.conn [ none ↦ false | some k ↦ is_valid g.io k ]

  abbrev pub map_conn : (Connection S O → Connection S O) → Client S O → Client S O
  map_conn f c = elim c.conn [ none ↦ c | some k ↦ record c { conn = some (f k) } ]

  abbrev pub resolve : ℕ → Outcome → Client S O → Client S O
  resolve promise r c = record c { resolved = (promise, r) ∷ c.resolved }

  -- `set_exception` for every slot, first to last.
  pub fail_all : Slots → List (ℕ × Outcome) → List (ℕ × Outcome)
  fail_all [] resolved = resolved
  fail_all ((session, promise) ∷ slots) resolved =
      fail_all slots ((promise, failed remote_connection_error) ∷ resolved)

  unfoldable pub fail_outstanding_futures : Client S O → Client S O
  unfolding is_conn_valid
  fail_outstanding_futures c =
      let shut = if is_conn_valid c then map_conn disable c else c in
      record shut { rpc_slots = []; resolved = fail_all c.rpc_slots c.resolved }

  -- What the caller of `raw_send` gets at once: an exception, or the future of a promise.
  pub data Sent : Type 0 where
    refused : Exception → Sent
    promised : ℕ → Sent

  -- The filters run with the slot in place; their failure leaves it there. A write enters the gate
  -- when it is queued.
  filtered : ℕ → Future Envelope → Client S O → Sent × Client S O
  filtered promise (failed x) c = (refused x, c)
  filtered promise (ready e) c = (
    promised promise,
    record c { writes = if c.gate_closed then c.writes else c.writes ++ e ∷ [] },
  )

  unfoldable pub raw_send : Envelope → Client S O → Sent × Client S O
  unfolding filtered is_conn_valid
  raw_send e c =
      let idx = (c.session_idx + 1) % 2 ^ 16 in
      let counted = record c { session_idx = idx; read_counter = (c.read_counter + 1) % 2 ^ 64 } in
      let slotted = record counted {
        next_promise = c.next_promise + 1;
        rpc_slots = insert idx c.next_promise c.rpc_slots;
      } in
      let e' = map_header (λ h. record h { session = idx }) e in
      if not (is_conn_valid c)
      then (refused invalid_connection_state, c)
      else elim (find idx c.rpc_slots) [
        | none ↦ filtered c.next_promise (rpc_filter_apply g.out_filters e') slotted
        | some taken ↦
            if g.debug
            then (refused runtime_error, counted)
            else filtered c.next_promise (rpc_filter_apply g.out_filters e') slotted
      ]

  -- `send`, through the gate that `stop` closes.
  unfoldable pub send_request : Envelope → Client S O → Sent × Client S O
  unfolding raw_send
  send_request e c = if c.gate_closed then (refused gate_closed_exception, c) else raw_send e c

  uncompressed : RecvContext → Outcome
  uncompressed ctx =
      if not (ctx.header.compression == compression_none)
      then failed runtime_error
      else ready (some ctx)

  -- What the caller's future becomes when its promise is resolved.
  unfoldable pub incoming : Outcome → Outcome
  unfolding uncompressed
  incoming (failed x) = failed x
  incoming (ready none) = ready none
  incoming (ready (some r)) = rpc_filter_apply g.in_filters r >>= uncompressed

  write_done : Connection S O → Future O → Client S O → Client S O
  unfolding fail_outstanding_futures
  write_done k (failed x) c = fail_outstanding_futures c
  write_done k (ready o) c = record c { conn = some (record k { ostream = o }) }

  write_to : Option (Connection S O) → Envelope → Client S O → Client S O
  unfolding write_done
  write_to none e c = c
  write_to (some k) e c = write_done k (send g.out g.debug e k.ostream) c

  -- One write, on its turn; the stream may fail.
  unfoldable pub dispatch_write : (broken : Bool) → Envelope → Client S O → Client S O
  unfolding write_to
  dispatch_write broken e c = if broken then fail_outstanding_futures c else write_to c.conn e c

  unfoldable pub fail_with : String → Client S O → Client S O
  unfolding fail_outstanding_futures
  fail_with e c = fail_outstanding_futures (map_conn (set_error e) c)

  answered : Option ℕ → RecvContext → Client S O → Client S O
  unfolding fail_with
  answered none ctx c = fail_with "Invalid session" c
  answered (some promise) ctx c = resolve promise (ready (some ctx)) (record c {
    read_counter = (c.read_counter + 2 ^ 64 - 1) % 2 ^ 64;
    rpc_slots = erase (session ctx) c.rpc_slots;
  })

  payload_read : Option RecvContext → Client S O → Client S O
  unfolding answered
  payload_read none c = fail_with "Could not parse response from server. Bad payload" c
  payload_read (some ctx) c = answered (find (session ctx) c.rpc_slots) ctx c

  header_read : Future (Option Header) → Connection S O → Client S O → Client S O
  unfolding payload_read
  header_read (failed x) k c = fail_outstanding_futures c
  header_read (ready none) k c =
      fail_with "Could not parse header from server" (record c { conn = some k })
  header_read (ready (some h)) k c =
      let (ctx, k') = parse_payload p g.io h k in
      if g.debug && c.read_counter == 0
      then fail_outstanding_futures (record c { conn = some k' })
      else payload_read ctx (record c { conn = some k' })

  -- One response, on the connection that is there, with the handler of `do_reads` for exceptions.
  process_on : Option (Connection S O) → Client S O → Client S O
  unfolding header_read
  process_on none c = c
  process_on (some k) c = let (hdr, k') = parse_header p g.io g.debug k in header_read hdr k' c

  unfoldable pub process_one_request : Client S O → Client S O
  unfolding process_on
  process_one_request c = process_on c.conn c

  -- One round of `do_reads`: its test, then a response, or a timeout
  -- or another exception of the read.
  unfoldable pub do_reads : (timed_out : Bool) → Client S O → Client S O
  unfolding is_conn_valid process_one_request fail_outstanding_futures
  do_reads timed_out c =
      if not (is_conn_valid c)
      then c
      else if timed_out
      then fail_outstanding_futures c
      else process_one_request c

  unfoldable pub stop : Client S O → Client S O
  unfolding fail_outstanding_futures
  stop c = record (fail_outstanding_futures c) { gate_closed = true }

  connected : Future (S × O) → Client S O → Completion × Client S O
  connected (failed x) c = (failed x, c)
  -- `wrap_client(std::move(creds_), …)` leaves no credentials behind.
  connected (ready (istream, ostream)) c = (
    ready tt,
    record c { conn = some (connection istream ostream); encrypted = c.creds; creds = false },
  )

  -- `socket` is what the network brings: the streams of a connection, or an exception.
  unfoldable pub connect : (socket : Future (S × O)) → Client S O → Completion × Client S O
  unfolding is_conn_valid connected
  connect socket c = if is_conn_valid c then (failed runtime_error, c) else connected socket c

  unfoldable pub begin_reconnect : Client S O → Client S O
  unfolding stop
  begin_reconnect c = stop (fail_outstanding_futures c)

  -- Closing the gate waits for the writes that have entered it; they go to the old connection.
  unfoldable pub reopen : (socket : Future (S × O)) → Client S O → Completion × Client S O
  unfolding connect
  reopen socket c =
      if not c.gate_closed
      then (failed runtime_error, c)
      else connect socket (record c { gate_closed = false; conn = none; writes = [] })

  unfoldable pub reconnect : (socket : Future (S × O)) → Client S O → Completion × Client S O
  unfolding begin_reconnect reopen
  reconnect socket c = reopen socket (begin_reconnect c)

  -- What a read brings that was left behind by its timeout, from the connection it was started on.
  pub data Late : Type 0 where
    thrown no_header no_payload : Late
    response : RecvContext → Late

  late_error : (same : Bool) → String → Client S O → Client S O
  unfolding fail_with
  late_error same e c = if same then fail_with e c else fail_outstanding_futures c

  late_answered : (same : Bool) → Option ℕ → RecvContext → Client S O → Client S O
  unfolding late_error answered
  late_answered same none ctx c = late_error same "Invalid session" c
  late_answered same (some promise) ctx c = answered (some promise) ctx c

  -- `process_one_request` goes on after its timeout, with nobody left to handle what it throws.
  -- `same` tells whether the connection it was started on is still that of the client: its errors
  -- go there, and `fail_outstanding_futures` goes to the client. The stream it reads and the
  -- counters of that connection are left out.
  unfoldable pub late_read : (same : Bool) → Late → Client S O → Client S O
  unfolding late_error late_answered
  late_read same thrown c = c
  late_read same no_header c = late_error same "Could not parse header from server" c
  late_read same no_payload c =
      if g.debug && c.read_counter == 0
      then c
      else late_error same "Could not parse response from server. Bad payload" c
  late_read same (response ctx) c =
      if g.debug && c.read_counter == 0
      then c
      else late_answered same (find (session ctx) c.rpc_slots) ctx c
