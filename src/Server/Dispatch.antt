-- ===== src/Server/Dispatch.antt =====
-- src/core/rpc_server.cc: `do_dispatch_rpc`, `cleanup_dispatch_rpc` and `dispatch_rpc`, the
-- handling of one request that was read.
pub mod Laws
pub mod Keeps
use Prim.Native.String.{String, ◌++◌}
use smf.Prelude.{
  ℕ, ◌+◌, ◌-◌, ◌^◌, Bool, not, List, [], ◌∷◌, Option, none, some, length, ltb, ◌==◌, if◌then◌else◌,
}
use smf.Rpc.Future.{Future, Completion, ready, failed, ◌>>=◌}
use smf.Rpc.Stream.{InputStream, OutputStream}
use smf.Rpc.Letter
use smf.Rpc.Envelope.{Envelope, send}
use smf.Rpc.Connection.{Connection, is_valid, has_error, set_error, disable}
use smf.Rpc.RecvContext.{RecvContext, request_id, compression_none}
use smf.Filter.Apply.{rpc_filter_apply}
use smf.Server.Stats.{Stats, add_u64, inc_u64, dec_u64}
use smf.Server.Router.{Service, MethodHandle, get_handle_for_request}
use smf.Server.Semaphore.{Semaphore}

-- What a server is configured with, and the parts of seastar and fmt that it calls.
pub record Config (S O : Type 0) : Type 0 where
  pub io : InputStream S
  pub out : OutputStream O
  pub debug : Bool
  pub format_compression : ℕ → String
  pub routes : List Service
  pub in_filters : List (RecvContext → Future RecvContext)
  pub out_filters : List (Envelope → Future Envelope)

-- What a request's continuations change of the server: its connection and the counters.
pub record Served (S O : Type 0) : Type 0 where
  pub conn : Connection S O
  pub stats : Stats

module _ {S O : Type 0} (g : Config S O) where
  abbrev fail_connection : String → Served S O → Completion × Served S O
  fail_connection e w = (ready tt, record w { conn = set_error e w.conn })

  send_reply : Envelope → Served S O → Future O → Completion × Served S O
  send_reply e w (failed x) = (failed x, w)
  send_reply e w (ready o) = (ready tt, record w { conn = record w.conn { ostream = o } })

  unfoldable pub reply : Future Envelope → Served S O → Completion × Served S O
  unfolding send_reply Letter.size
  reply (failed x) w = (failed x, w)
  reply (ready e) w =
      let counted = record w {
        stats = record w.stats { out_bytes = add_u64 w.stats.out_bytes (Letter.size e.letter) };
      } in
      if not (is_valid g.io w.conn)
      then (ready tt, w)
      else send_reply e counted (send g.out g.debug e w.conn.ostream)

  -- `meanwhile` is what other continuations do to the connection until the reply is there.
  unfoldable pub handle :
      (meanwhile : Connection S O → Connection S O)
      → MethodHandle
      → Future RecvContext
      → Served S O
      → Completion × Served S O
  unfolding reply
  handle meanwhile method_dispatch (failed x) w = (failed x, w)
  handle meanwhile method_dispatch (ready ctx) w =
      if not (ctx.header.compression == compression_none)
      then fail_connection
          ("There was no decompression filter for compression enum: "
            ++ g.format_compression ctx.header.compression)
          w
      else reply (method_dispatch ctx >>= rpc_filter_apply g.out_filters)
          (record w { conn = meanwhile w.conn })

  unfoldable pub flush_reply : Completion × Served S O → Completion × Served S O
  flush_reply (failed x, w) = (failed x, w)
  flush_reply (ready u, w) =
      if is_valid g.io w.conn
      then (ready tt, record w { conn = record w.conn { ostream = g.out.flush w.conn.ostream } })
      else (ready tt, w)

  dispatch_to :
      (meanwhile : Connection S O → Connection S O)
      → Option MethodHandle
      → RecvContext
      → Served S O
      → Completion × Served S O
  unfolding handle flush_reply
  dispatch_to meanwhile none ctx w =
      fail_connection "Can't find route for request. Invalid" (record w {
        stats = record w.stats { no_route_requests = inc_u64 w.stats.no_route_requests };
      })
  dispatch_to meanwhile (some method_dispatch) ctx w =
      let counted = record w {
        stats = record w.stats {
          in_bytes = add_u64 w.stats.in_bytes (ctx.header.size + length ctx.payload);
        };
      } in
      flush_reply (handle meanwhile method_dispatch (rpc_filter_apply g.in_filters ctx) counted)

  unfoldable pub do_dispatch_rpc :
      (meanwhile : Connection S O → Connection S O)
      → RecvContext
      → Served S O
      → Completion × Served S O
  unfolding dispatch_to request_id
  do_dispatch_rpc meanwhile ctx w =
      if request_id ctx == 0
      then fail_connection "Missing request_id. Invalid request" w
      else dispatch_to meanwhile (get_handle_for_request g.routes (request_id ctx)) ctx w

-- `erase` on the ids of the open connections.
unfoldable pub erase : ℕ → List ℕ → List ℕ
erase id [] = []
erase id (x ∷ xs) = if x == id then xs else x ∷ erase id xs

unfoldable pub contains : List ℕ → ℕ → Bool
contains [] id = Bool.false
contains (x ∷ xs) id = if x == id then Bool.true else contains xs id

-- `insert` changes nothing where the key is taken, as it is once the 64 bits of the ids are used up.
unfoldable pub insert : ℕ → List ℕ → List ℕ
unfolding contains
insert id ids = if contains ids id then ids else id ∷ ids

module _ {S O : Type 0} where
  unfoldable pub cleanup_dispatch_rpc : ℕ → Served S O × List ℕ → Served S O × List ℕ
  unfolding has_error disable
  cleanup_dispatch_rpc id (w, open_connections) =
      if has_error w.conn
      then (if contains open_connections id
          then (
            record {
              conn = disable w.conn;
              stats = record w.stats {
                bad_requests = inc_u64 w.stats.bad_requests;
                active_connections = dec_u64 w.stats.active_connections;
              };
            },
            erase id open_connections,
          )
          else (w, open_connections))
      else (
        record w {
          stats = record w.stats { completed_requests = inc_u64 w.stats.completed_requests };
        },
        open_connections,
      )

-- An int32_t that a uint32_t was assigned to, handed on as a size_t.
abbrev pub size_of_int32 : ℕ → ℕ
size_of_int32 n = if ltb n (2 ^ 31) then n else 2 ^ 64 - 2 ^ 32 + n

module _ {S O Q : Type 0} (g : Config S O) (sem : Semaphore Q) where
  -- `.then(cleanup)` runs on success alone.
  unfoldable pub finish_dispatch : ℕ → List ℕ → Completion × Served S O → Served S O × List ℕ
  unfolding cleanup_dispatch_rpc
  finish_dispatch id open_connections (ready u, w) = cleanup_dispatch_rpc id (w, open_connections)
  finish_dispatch id open_connections (failed x, w) = (w, open_connections)

  -- The result is the connection and the counters, the open connections and the semaphore. The
  -- future of `dispatch_rpc` is dropped by its caller, an exception with it.
  unfoldable pub dispatch_rpc :
      (meanwhile : Connection S O → Connection S O)
      → (payload_size id : ℕ) → Option RecvContext
      → Served S O
      → List ℕ
      → Q
      → Served S O × List ℕ × Q
  unfolding finish_dispatch do_dispatch_rpc
  dispatch_rpc meanwhile payload_size id none w open_connections q = (
    record w { conn = set_error "Could not parse payload" w.conn },
    open_connections,
    sem.signal (size_of_int32 payload_size) q,
  )
  dispatch_rpc meanwhile payload_size id (some ctx) w open_connections q =
      let (w', open_connections') =
        finish_dispatch id open_connections (do_dispatch_rpc g meanwhile ctx w) in
      (w', open_connections', sem.signal (size_of_int32 payload_size) q)
