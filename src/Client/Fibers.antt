-- ===== src/Client/Fibers.antt =====
-- src/core/rpc_client.cc: the fibers of a client that run in the background. A write waits for the
-- memory of src/include/smf/rpc_connection_limits.h and then for `serialize_writes_`, two
-- seastar::semaphores that serve in the order of arrival; a read can be left behind by its timeout;
-- `stop` and `reconnect` wait for the gate. `send` is one step here: its outgoing filters do not
-- wait, and the gate that it holds until its response comes needs no wait, since the close of the
-- gate follows the failure of all that is outstanding. A call that seastar aborts on, closing a
-- gate twice, is no step, and neither is a connect while a read of the connection before it is in
-- flight.
pub mod Seen
pub mod Refines
pub mod Memory
pub mod Blocked
mod Tests
use smf.Prelude.{
  ℕ, zero, suc, ◌+◌, Bool, true, false, not, ◌&&◌, ◌==◌, List, [], ◌∷◌, ◌++◌, Option, none, some,
  pluck, if◌then◌else◌,
}
use smf.Rpc.Future.{Future, Completion, ready, failed}
use smf.Rpc.Envelope.{Envelope, size}
use smf.Rpc.RecvContext.{Platform}
use smf.Server.Semaphore.{Semaphore}
use smf.Client.{
  Config, Client, Late, rpc_client, is_conn_valid, send_request, dispatch_write, do_reads,
  late_read, stop, connect, begin_reconnect, reopen,
}

-- The `writes` of the client wait for memory, those of `for_turn` have it and wait for their turn,
-- each list with its oldest first; those of `writing` hold both. `reading` counts the fibers of
-- `do_reads`, `late` the reads that were left behind.
pub record Fibers (S O Q : Type 0) : Type 0 where
  pub client : Client S O
  pub resources_available : Q
  pub for_turn : List Envelope
  pub serialize_writes : Q
  pub writing : List Envelope
  pub reading : ℕ
  pub late : ℕ
  pub reconnecting : Bool

module _ {S O Q : Type 0} (p : Platform) (g : Config S O) (sem : Semaphore Q) where
  pub data Event : Type 0 where
    sends : Envelope → Event
    -- the oldest write that waits for memory, or for its turn, gets it
    has_memory has_turn : Event
    -- a write ends, or its stream fails
    written : ℕ → (broken : Bool) → Event
    reads : (timed_out : Bool) → Event
    reads_late : (same : Bool) → Late p g → Event
    stops : Event
    connects : Future (S × O) → Event
    begins_reconnect : Event
    reopens : Future (S × O) → Event

  -- A new client, with the memory of its options.
  unfoldable pub fibers : (memory_avail_for_client : ℕ) (credentials : Bool) → Fibers S O Q
  unfolding rpc_client
  fibers memory_avail_for_client credentials = record {
    client = rpc_client p g credentials;
    resources_available = sem.initial memory_avail_for_client;
    for_turn = [];
    serialize_writes = sem.initial 1;
    writing = [];
    reading = 0;
    late = 0;
    reconnecting = false;
  }

  pub take_memory : List Envelope → Fibers S O Q → Option (Fibers S O Q)
  take_memory [] s = none
  take_memory (e ∷ es) s = elim (sem.wait (size e) s.resources_available) [
    | none ↦ none
    | some q ↦ some (record s {
      client = record s.client { writes = es };
      resources_available = q;
      for_turn = s.for_turn ++ e ∷ [];
    })
  ]

  pub take_turn : List Envelope → Fibers S O Q → Option (Fibers S O Q)
  take_turn [] s = none
  take_turn (e ∷ es) s = elim (sem.wait 1 s.serialize_writes) [
    | none ↦ none
    | some q ↦ some (record s { for_turn = es; serialize_writes = q; writing = e ∷ s.writing })
  ]

  -- The end of `send` ends the scopes of both semaphores.
  pub end_write :
      (broken : Bool) → Option (Envelope × List Envelope) → Fibers S O Q → Option (Fibers S O Q)
  unfolding dispatch_write
  end_write broken none s = none
  end_write broken (some (e, others)) s = some (record s {
    client = dispatch_write p g broken e s.client;
    resources_available = sem.signal (size e) s.resources_available;
    serialize_writes = sem.signal 1 s.serialize_writes;
    writing = others;
  })

  -- A fiber of `do_reads` ends at its test, or by a timeout, which leaves its read behind.
  pub end_read : ℕ → (timed_out : Bool) → Fibers S O Q → Option (Fibers S O Q)
  unfolding is_conn_valid do_reads
  end_read zero timed_out s = none
  end_read (suc others) timed_out s =
      let valid = is_conn_valid p g s.client in
      some (record s {
        client = do_reads p g timed_out s.client;
        reading = if valid && not timed_out then s.reading else others;
        late = if valid && timed_out then suc s.late else s.late;
      })

  pub end_late : ℕ → (same : Bool) → Late p g → Fibers S O Q → Option (Fibers S O Q)
  unfolding late_read
  end_late zero same l s = none
  end_late (suc others) same l s =
      some (record s { client = late_read p g same l s.client; late = others })

  -- Once it is connected, `do_reads` enters the gate, if that is open.
  pub entered : Completion × Client S O → Fibers S O Q → Fibers S O Q
  entered (failed x, c) s = record s { client = c }
  entered (ready u, c) s = record s {
    client = c;
    reading = if c.gate_closed then s.reading else suc s.reading;
  }

  pub connect_idle : ℕ → Future (S × O) → Fibers S O Q → Option (Fibers S O Q)
  unfolding connect entered
  connect_idle zero socket s = some (entered (connect p g socket s.client) s)
  connect_idle (suc n) socket s = none

  abbrev pub no_write : List Envelope → Bool
  no_write [] = true
  no_write (e ∷ es) = false

  -- The close of the gate has waited for every write and for `do_reads`.
  abbrev pub is_empty : Fibers S O Q → Bool
  is_empty s =
      no_write s.writing && (no_write s.for_turn && (no_write s.client.writes && s.reading == 0))

  pub reopen_empty : Future (S × O) → Fibers S O Q → Option (Fibers S O Q)
  unfolding reopen entered
  reopen_empty socket s =
      if is_empty s && s.reconnecting
      then some (record (entered (reopen p g socket s.client) s) { reconnecting = false })
      else none

  unfoldable pub step : Event → Fibers S O Q → Option (Fibers S O Q)
  unfolding send_request take_memory take_turn end_write end_read end_late stop connect_idle
      begin_reconnect reopen_empty
  step (sends e) s = some (record s { client = (send_request p g e s.client).1 })
  step has_memory s = take_memory s.client.writes s
  step has_turn s = take_turn s.for_turn s
  step (written k broken) s = end_write broken (pluck k s.writing) s
  step (reads timed_out) s = end_read s.reading timed_out s
  step (reads_late same l) s = end_late s.late same l s
  step stops s =
      if s.client.gate_closed then none else some (record s { client = stop p g s.client })
  step (connects socket) s = connect_idle s.reading socket s
  step begins_reconnect s =
      if s.client.gate_closed
      then none
      else some (record s { client = begin_reconnect p g s.client; reconnecting = true })
  step (reopens socket) s = reopen_empty socket s

  unfoldable pub run : List Event → Fibers S O Q → Option (Fibers S O Q)
  run [] s = some s
  run (x ∷ xs) s = elim (step x s) [ none ↦ none | some s' ↦ run xs s' ]
