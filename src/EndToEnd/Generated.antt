-- ===== src/EndToEnd/Generated.antt =====
-- One call through the code that smfc generates, without filters.
use Prim.Native.String.{String}
use smf.Prelude.{
  ℕ, ◌+◌, ◌%◌, ◌^◌, ◌≡◌, refl, true, false, List, [], ◌∷◌, ◌++◌, none, some, arith, get_elem?,
  bit_xor,
}
use smf.Rpc.Future.{ready}
use smf.Rpc.Envelope.{Envelope, map_header, set_request_id}
use smf.Rpc.Connection.{Connection, is_valid}
use smf.Rpc.RecvContext.{Platform, request_id, session, compression_none}
use smf.Rpc.Framing.{IsSendable, received, receive}
use smf.Rpc.Framing.RoundTrip.{Awaits}
use smf.Filter.Apply.{rpc_filter_apply}
use smf.Server.Router.{get_handle_for_request, get_handle-first}
use smf.Server.Dispatch
use smf.Server.Dispatch.{Served}
use smf.Client
use smf.Client.{Client, is_conn_valid, do_reads}
use smf.Client.Calls.{sends, writes_oldest, run}
use smf.Client.SlotMap.{find, Distinct}
use smf.Smfc.Schema.{Method}
use smf.Smfc.Generated.{Implementation, raw_method, handle, generated_service, client_request}
use smf.Smfc.Generated.Dispatches.{DistinctMethods, switch-selects, handle-answers}
use smf.EndToEnd.Answer.{serve_one, call_answered}

abbrev pub with_session : ℕ → Envelope → Envelope
with_session s = map_header (λ h. record h { session = s })

module _ {S O S' O' : Type 0} (p : Platform) (cg : Client.Config S O) (sg : Dispatch.Config S' O')
    (name : String) (service_id : ℕ) (methods : List Method) (implementations : List Implementation)
    (n : ℕ) (m : Method) (i : Implementation) (e r : Envelope) (c c₂ : Client S O)
    (k k₂ : Connection S O) (w : Served S' O') (sent back : List ℕ) (istream : S) where
  abbrev pub session_of : ℕ
  session_of = (c.session_idx + 1) % 2 ^ 16

  -- The request as it is written, and the answer as it is sent.
  abbrev pub request : Envelope
  request = with_session session_of (client_request m e)

  abbrev pub answer : Envelope
  answer = with_session session_of r

  abbrev pub answered : Client S O
  answered = record c₂ { conn = some (record k₂ { istream = istream }) }

  request_id-request : request_id (received request.letter) ≡ bit_xor m.service_id m.method_id
  unfolding client_request set_request_id received request_id
  request_id-request = ground arith

  session-request : session (received request.letter) ≡ session_of
  unfolding received session
  session-request = ground arith

  compression-request :
      e.letter.header.compression ≡ compression_none
      → (received request.letter).header.compression ≡ compression_none
  unfolding client_request set_request_id received
  compression-request plain = ground arith

  routed :
      sg.routes ≡ generated_service p.xxh64 name service_id methods implementations ∷ []
      → DistinctMethods service_id methods
      → get_elem? methods n ≡ some m
      → get_elem? implementations n ≡ some i
      → get_handle_for_request sg.routes (request_id (received request.letter))
        ≡ some (handle p.xxh64 i)
  unfolding get_handle_for_request generated_service
  routed routes d at_m at_i =
      rw (routes, request_id-request)
        (get_handle-first (generated_service p.xxh64 name service_id methods implementations) []
          (bit_xor m.service_id m.method_id) (handle p.xxh64 i)
          (switch-selects p.xxh64 service_id methods implementations n m i d at_m at_i))

  -- In a release build and without filters, when a generated client calls the n-th method of a
  -- service whose methods have distinct ids, uncompressed, on a valid connection with an open gate,
  -- no write before it, slots of distinct sessions and a free session, the request as it is written
  -- being sendable (its header fits its widths and has no flags and a known compression, its body
  -- is not empty and no larger than a flatbuffer may be, its size and checksum are those of the
  -- body, and its checksum and its request id or, in a reply, its status are not 0); and when the
  -- server of the generated service alone has the bytes that the client wrote, and no others,
  -- before it, between two messages, on a connection that is valid after they are read, and the
  -- n-th implementation, through its raw method, gives a reply; and when that reply, with the
  -- session of the request, is sendable as well, and the client has the bytes that the server
  -- wrote, and no others, before it, between two messages, on a valid connection: then the promise
  -- of the call is resolved with that reply (the flag `disabled` reads as `none`), before all that
  -- was resolved earlier, and the session is free again.
  pub generated_call :
      cg.debug ≡ false
      → sg.debug ≡ false
      → cg.out_filters ≡ []
      → sg.in_filters ≡ []
      → sg.out_filters ≡ []
      → sg.routes ≡ generated_service p.xxh64 name service_id methods implementations ∷ []
      → DistinctMethods service_id methods
      → get_elem? methods n ≡ some m
      → get_elem? implementations n ≡ some i
      → e.letter.header.compression ≡ compression_none
      → c.conn ≡ some k
      → is_conn_valid p cg c ≡ true
      → c.gate_closed ≡ false
      → c.writes ≡ []
      → Distinct c.rpc_slots
      → find session_of c.rpc_slots ≡ none
      → IsSendable p request.letter
      → run p cg (sends (client_request m e) ∷ writes_oldest false ∷ []) c ≡ c₂
      → c₂.conn ≡ some k₂
      → cg.out.written k₂.ostream ≡ cg.out.written k.ostream ++ sent
      → Awaits p sg.io w.conn sent
      → raw_method p.xxh64 i (received request.letter) ≡ ready r
      → is_valid sg.io (receive p sg.io sg.debug w.conn).1 ≡ true
      → sg.out.written (serve_one p sg w).conn.ostream ≡ sg.out.written w.conn.ostream ++ back
      → IsSendable p answer.letter
      → Awaits p cg.io (record k₂ { istream = istream }) back
      → is_conn_valid p cg answered ≡ true
      → ((do_reads p cg false answered).resolved
          ≡ (c.next_promise, ready (some (received answer.letter))) ∷ c.resolved)
        × (find session_of (do_reads p cg false answered).rpc_slots ≡ none)
  unfolding rpc_filter_apply
  generated_call nd nd' cf sf sf' routes d at_m at_i plain up valid open_gate idle distinct free v
        ran up₂ wrote wire implemented valid' replied v' back_wire valid₂ =
      call_answered p cg sg (client_request m e) request answer (received request.letter)
        (handle p.xxh64 i) c c₂ k k₂ w sent back istream nd nd' up valid open_gate idle distinct
        free (rw cf refl) v ran up₂ wrote wire (routed routes d at_m at_i) (rw sf refl)
        (compression-request plain)
        (rw
          (
            handle-answers p.xxh64 service_id i (received request.letter) r implemented,
            sf',
            session-request,
          )
          refl)
        valid' replied v' refl back_wire valid₂
