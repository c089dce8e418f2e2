-- ===== src/Server/Dispatch/Keeps.antt =====
-- What the handling of a request leaves alone: whether its connection is enabled.
use Prim.Native.String.{String}
use smf.Prelude.{◌≡◌, refl, ◌∙◌, inl, inr, Option, none, some, arith, Bool-cases, ◌==◌}
use smf.Rpc.Future.{Future, Completion, ready, failed, ◌>>=◌}
use smf.Rpc.Envelope.{Envelope, send}
use smf.Rpc.Connection.{Connection, is_valid, set_error}
use smf.Rpc.RecvContext.{RecvContext, request_id, compression_none}
use smf.Filter.Apply.{rpc_filter_apply}
use smf.Server.Router.{MethodHandle, get_handle_for_request}
use smf.Server.Dispatch.{
  Config, Served, send_reply, reply, handle, flush_reply, dispatch_to, do_dispatch_rpc,
}

-- A change to a connection that neither enables nor disables it.
module _ {S O : Type 0} where
  abbrev pub KeepsEnabled : (Connection S O → Connection S O) → Type 0
  KeepsEnabled m = (c : Connection S O) → (m c).enabled ≡ c.enabled

module _ {S O : Type 0} (g : Config S O) where
  pub set_error-enabled : (e : String) (c : Connection S O) → (set_error e c).enabled ≡ c.enabled
  unfolding set_error
  set_error-enabled e c = ground arith

  send_reply-enabled :
      (e : Envelope) (w : Served S O) (r : Future O)
      → (send_reply g e w r).1.conn.enabled ≡ w.conn.enabled
  unfolding send_reply
  send_reply-enabled e w (failed x) = refl
  send_reply-enabled e w (ready o) = refl

  reply-enabled :
      (r : Future Envelope) (w : Served S O) → (reply g r w).1.conn.enabled ≡ w.conn.enabled
  unfolding reply
  reply-enabled (failed x) w = refl
  reply-enabled (ready e) w = elim (Bool-cases (is_valid g.io w.conn)) [
    | inl valid ↦ rw valid (send_reply-enabled e _ (send g.out g.debug e w.conn.ostream))
    | inr invalid ↦ rw invalid refl
  ]

  flush_reply-enabled :
      (r : Completion × Served S O) → (flush_reply g r).1.conn.enabled ≡ r.1.conn.enabled
  unfolding flush_reply
  flush_reply-enabled (failed x, w) = refl
  flush_reply-enabled (ready u, w) = elim (Bool-cases (is_valid g.io w.conn)) [
    | inl valid ↦ rw valid refl
    | inr invalid ↦ rw invalid refl
  ]

  module _ (m : Connection S O → Connection S O) (keeps : KeepsEnabled m) where
    handle-enabled :
        (h : MethodHandle) (r : Future RecvContext) (w : Served S O)
        → (handle g m h r w).1.conn.enabled ≡ w.conn.enabled
    unfolding handle
    handle-enabled h (failed x) w = refl
    handle-enabled h (ready ctx) w =
        elim (Bool-cases (ctx.header.compression == compression_none)) [
          | inl plain ↦ rw plain (
              reply-enabled (h ctx >>= rpc_filter_apply g.out_filters)
                (record w { conn = m w.conn })
              ∙ keeps w.conn)
          | inr compressed ↦ rw compressed (set_error-enabled _ w.conn)
        ]

    dispatch_to-enabled :
        (h : Option MethodHandle) (ctx : RecvContext) (w : Served S O)
        → (dispatch_to g m h ctx w).1.conn.enabled ≡ w.conn.enabled
    unfolding dispatch_to
    dispatch_to-enabled none ctx w = set_error-enabled _ w.conn
    dispatch_to-enabled (some h) ctx w =
        flush_reply-enabled _ ∙ handle-enabled h (rpc_filter_apply g.in_filters ctx) _

    pub do_dispatch-enabled :
        (ctx : RecvContext) (w : Served S O)
        → (do_dispatch_rpc g m ctx w).1.conn.enabled ≡ w.conn.enabled
    unfolding do_dispatch_rpc
    do_dispatch-enabled ctx w = elim (Bool-cases (request_id ctx == 0)) [
      | inl unnamed ↦ rw unnamed (set_error-enabled _ w.conn)
      | inr named ↦
          rw named (dispatch_to-enabled (get_handle_for_request g.routes (request_id ctx)) ctx w)
    ]
