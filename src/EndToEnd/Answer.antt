-- ===== src/EndToEnd/Answer.antt =====
-- One call, from the request that a client makes to the promise that its answer resolves.
use mathlib.Core.Path.{subst}
use smf.Prelude.{
  ℕ, ◌+◌, ◌%◌, ◌^◌, ◌≡◌, ◌≢◌, refl, sym, ap, ◌∙◌, true, false, List, [], ◌∷◌, ◌++◌, Option, none,
  some, arith, append-cancel, append-nil,
}
use mathlib.Core.Option.{some-injective}
use smf.Rpc.Future.{Future, ready, ◌>>=◌}
use smf.Rpc.Letter.{Letter}
use smf.Rpc.Envelope.{Envelope, map_header}
use smf.Rpc.Connection.{Connection, is_valid}
use smf.Rpc.RecvContext.{Platform, RecvContext, request_id, compression_none}
use smf.Rpc.Framing.{IsSendable, received, frame, receive, receive-ostream}
use smf.Rpc.Framing.RoundTrip.{Awaits, receive-frame}
use smf.Filter.Apply.{rpc_filter_apply}
use smf.Server.Router.{MethodHandle, get_handle_for_request}
use smf.Server.Dispatch
use smf.Server.Dispatch.{Served, do_dispatch_rpc}
use smf.Server.Dispatch.Laws.{do_dispatch-replies}
use smf.Client
use smf.Client.{Client, Outcome, is_conn_valid, do_reads}
use smf.Client.Calls.{sends, writes_oldest, run}
use smf.Client.SlotMap.{find, insert, find-insert, insert-Distinct, Distinct}
use smf.Client.Request.{after_request, request_written}
use smf.Client.Response.{response_resolves}

-- One round of the server's loop on a connection: a message is read and dispatched.

module _ {S O : Type 0} (p : Platform) (g : Dispatch.Config S O) where
  dispatched : Future (Option RecvContext) × Connection S O → Served S O → Served S O
  unfolding do_dispatch_rpc
  dispatched (ready (some ctx), conn) w =
      (do_dispatch_rpc g (λ c. c) ctx (record w { conn = conn })).1
  dispatched (_, conn) w = record w { conn = conn }

  unfoldable pub serve_one : Served S O → Served S O
  unfolding dispatched
  serve_one w = dispatched (receive p g.io g.debug w.conn) w

  request_id-received : (l : Letter) → IsSendable p l → request_id (received l) ≢ 0
  unfolding request_id received
  request_id-received l v e = ground arith

  -- A sendable letter that names a method with a route is read, and its answer is written.
  pub request_answered :
      (l : Letter) (ctx' : RecvContext) (h : MethodHandle) (r : Envelope) (w : Served S O)
      → g.debug ≡ false
      → IsSendable p l
      → Awaits p g.io w.conn (frame l)
      → get_handle_for_request g.routes (request_id (received l)) ≡ some h
      → rpc_filter_apply g.in_filters (received l) ≡ ready ctx'
      → ctx'.header.compression ≡ compression_none
      → (h ctx' >>= rpc_filter_apply g.out_filters) ≡ ready r
      → is_valid g.io (receive p g.io g.debug w.conn).1 ≡ true
      → g.out.written (serve_one w).conn.ostream ≡ g.out.written w.conn.ostream ++ frame r.letter
  unfolding serve_one dispatched
  request_answered l ctx' h r w nd v a route filt plain ans valid =
      let (c', got, rest) =
        receive-frame p g.io g.debug l [] w.conn v (rw (append-nil (frame l)) a) in
      let step =
        do_dispatch-replies g (λ c. c) (received l) (record w { conn = c' }) h ctx' r nd
          (request_id-received l v) route filt plain ans (rw got at valid) in
      rw got (
        step.1
        ∙ ap (λ o. g.out.written o ++ frame r.letter)
            (sym (ap (λ (x : Future (Option RecvContext) × Connection S O). x.1.ostream) got)
              ∙ receive-ostream p g.io g.debug w.conn))

module _ {S O S' O' : Type 0} (p : Platform) (cg : Client.Config S O) (sg : Dispatch.Config S' O')
    (e e' r : Envelope) (ctx' : RecvContext) (h : MethodHandle) (c c₂ : Client S O)
    (k k₂ : Connection S O) (w : Served S' O') (sent back : List ℕ) (i : S) where
  abbrev session_of : ℕ
  session_of = (c.session_idx + 1) % 2 ^ 16

  -- The client once the answer has come to its socket.
  abbrev answered : Client S O
  answered = record c₂ { conn = some (record k₂ { istream = i }) }

  stream_of : (o : O) → after_request p cg e e' c k o ≡ c₂ → c₂.conn ≡ some k₂ → o ≡ k₂.ostream
  stream_of o ran up₂ =
      ap (λ (x : Connection S O). x.ostream)
        (some-injective _ _ (ap (λ (d : Client S O). d.conn) ran ∙ up₂))

  slots_of :
      (o : O)
      → after_request p cg e e' c k o ≡ c₂
      → insert session_of c.next_promise c.rpc_slots ≡ c₂.rpc_slots
  slots_of o ran = ap (λ (d : Client S O). d.rpc_slots) ran

  slot_taken :
      find session_of c.rpc_slots ≡ none
      → find session_of (insert session_of c.next_promise c.rpc_slots) ≡ some c.next_promise
  slot_taken free = ground (arith, find-insert session_of c.next_promise c.rpc_slots session_of)

  pub call_answered :
      cg.debug ≡ false
      → sg.debug ≡ false
      → c.conn ≡ some k
      → is_conn_valid p cg c ≡ true
      → c.gate_closed ≡ false
      → c.writes ≡ []
      → Distinct c.rpc_slots
      → find session_of c.rpc_slots ≡ none
      → rpc_filter_apply cg.out_filters (map_header (λ x. record x { session = session_of }) e)
        ≡ ready e'
      → IsSendable p e'.letter
      → run p cg (sends e ∷ writes_oldest false ∷ []) c ≡ c₂
      → c₂.conn ≡ some k₂
      → cg.out.written k₂.ostream ≡ cg.out.written k.ostream ++ sent
      → Awaits p sg.io w.conn sent
      → get_handle_for_request sg.routes (request_id (received e'.letter)) ≡ some h
      → rpc_filter_apply sg.in_filters (received e'.letter) ≡ ready ctx'
      → ctx'.header.compression ≡ compression_none
      → (h ctx' >>= rpc_filter_apply sg.out_filters) ≡ ready r
      → is_valid sg.io (receive p sg.io sg.debug w.conn).1 ≡ true
      → sg.out.written (serve_one p sg w).conn.ostream ≡ sg.out.written w.conn.ostream ++ back
      → IsSendable p r.letter
      → r.letter.header.session ≡ session_of
      → Awaits p cg.io (record k₂ { istream = i }) back
      → is_conn_valid p cg answered ≡ true
      → ((do_reads p cg false answered).resolved
          ≡ (c.next_promise, ready (some (received r.letter))) ∷ c.resolved)
        × (find session_of (do_reads p cg false answered).rpc_slots ≡ none)
  call_answered nd nd' up valid open_gate idle distinct free filt v ran up₂ wrote wire route filt'
        plain ans valid' replied v' same back_wire valid₂ =
      let (o, went, out) = request_written p cg e e' c k up valid open_gate idle free filt v in
      let same_client = sym went ∙ ran in
      let sent_frame =
        append-cancel (cg.out.written k.ostream) sent (frame e'.letter)
          (sym wrote ∙ ap cg.out.written (sym (stream_of o same_client up₂)) ∙ out) in
      let back_frame = append-cancel (sg.out.written w.conn.ostream) back (frame r.letter) (
        sym replied
        ∙ request_answered p sg e'.letter ctx' h r w nd' v
            (subst (Awaits p sg.io w.conn) sent_frame wire) route filt' plain ans valid') in
      let (resolved, slots, rest) =
        response_resolves p cg r.letter [] answered (record k₂ { istream = i }) c.next_promise nd
          refl valid₂ v'
          (subst (Awaits p cg.io (record k₂ { istream = i }))
            (back_frame ∙ sym (append-nil (frame r.letter))) back_wire)
          (subst Distinct (slots_of o same_client)
            (insert-Distinct session_of c.next_promise c.rpc_slots distinct))
          (ap (λ slots. find r.letter.header.session slots) (sym (slots_of o same_client))
            ∙ ap (λ t. find t (insert session_of c.next_promise c.rpc_slots)) same
            ∙ slot_taken free) in
      (
        resolved
            ∙ ap
                (λ (l : List (ℕ × Outcome)). (c.next_promise, ready (some (received r.letter))) ∷ l)
                (sym (ap (λ (d : Client S O). d.resolved) same_client)),
        slots session_of ∙ ground (arith, same),
      )
