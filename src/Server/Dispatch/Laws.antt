-- ===== src/Server/Dispatch/Laws.antt =====
-- What a request does to its connection on each path.
use smf.Prelude.{
  ◌+◌, ◌≡◌, ◌≢◌, ◌∙◌, ap, ◌⊎◌, inl, inr, true, false, ◌++◌, none, some, arith, length, append_assoc,
}
use smf.Rpc.Future.{ready, ◌>>=◌}
use smf.Rpc.Header.{to_bytes}
use smf.Rpc.Envelope.{Envelope, send}
use smf.Rpc.Connection.{Connection, is_valid, has_error, set_error}
use smf.Rpc.RecvContext.{RecvContext, request_id, compression_none}
use smf.Rpc.Framing.{frame}
use smf.Filter.Apply.{rpc_filter_apply}
use smf.Server.Stats.{add_u64}
use smf.Server.Router.{MethodHandle, get_handle_for_request}
use smf.Server.Dispatch.{Config, Served, do_dispatch_rpc}

module _ {S O : Type 0} (g : Config S O) (meanwhile : Connection S O → Connection S O)
    (ctx : RecvContext) (w : Served S O) where
  -- A request that names no method, or a method without a route, or that the incoming filters leave
  -- compressed, gets no reply: nothing is written and its connection is in error.
  pub do_dispatch-rejects :
      (request_id ctx ≡ 0)
        ⊎ (get_handle_for_request g.routes (request_id ctx) ≡ none)
        ⊎ ((ctx' : RecvContext) × (rpc_filter_apply g.in_filters ctx ≡ ready ctx')
            × (ctx'.header.compression ≢ compression_none))
      → let (r, w') = do_dispatch_rpc g meanwhile ctx w in
        (has_error w'.conn ≡ true) × (g.out.written w'.conn.ostream ≡ g.out.written w.conn.ostream)
  unfolding do_dispatch_rpc has_error set_error is_valid
  do_dispatch-rejects (inl e) = ground arith
  do_dispatch-rejects (inr (inl e)) = ground arith
  do_dispatch-rejects (inr (inr (ctx', f, c))) = ground arith

  -- In a release build, a request that names a method, is routed, passes the incoming filters
  -- uncompressed and is answered through the outgoing filters gets exactly its reply written after
  -- what was written, if the connection is still valid by then, and the counters take the size of
  -- the request and of the reply.
  pub do_dispatch-replies :
      (h : MethodHandle) (ctx' : RecvContext) (e : Envelope)
      → g.debug ≡ false
      → request_id ctx ≢ 0
      → get_handle_for_request g.routes (request_id ctx) ≡ some h
      → rpc_filter_apply g.in_filters ctx ≡ ready ctx'
      → ctx'.header.compression ≡ compression_none
      → (h ctx' >>= rpc_filter_apply g.out_filters) ≡ ready e
      → is_valid g.io (meanwhile w.conn) ≡ true
      → let (r, w') = do_dispatch_rpc g meanwhile ctx w in
        (r ≡ ready tt)
        × (g.out.written w'.conn.ostream
            ≡ g.out.written (meanwhile w.conn).ostream ++ frame e.letter)
        × (w'.stats ≡ record w.stats {
          in_bytes = add_u64 w.stats.in_bytes (ctx.header.size + length ctx.payload);
          out_bytes = add_u64 w.stats.out_bytes (16 + length e.letter.body);
        })
  unfolding do_dispatch_rpc is_valid send frame
  do_dispatch-replies h ctx' e nd id route filt plain ans valid =
      (ground arith, ground (arith, sent), ground arith)
    where
      o' : O
      o' = g.out.flush (
          g.out.flush (
            g.out.write e.letter.body
              (g.out.write (to_bytes e.letter.header) (meanwhile w.conn).ostream)))

      sent :
          g.out.written o'
          ≡ g.out.written (meanwhile w.conn).ostream ++ (to_bytes e.letter.header ++ e.letter.body)
      sent =
          g.out.written-flush _
          ∙ g.out.written-flush _
          ∙ g.out.written-write e.letter.body _
          ∙ ap (λ bs. bs ++ e.letter.body) (g.out.written-write (to_bytes e.letter.header) _)
          ∙ append_assoc _ (to_bytes e.letter.header) e.letter.body
