-- ===== src/Client/Request.antt =====
-- A request is sent and then written.
use smf.Prelude.{
  ℕ, ◌+◌, ◌%◌, ◌^◌, ◌≡◌, refl, ap, ◌∙◌, true, false, [], ◌∷◌, ◌++◌, none, some, arith,
}
use smf.Rpc.Future.{ready}
use smf.Rpc.Envelope.{Envelope, map_header, send}
use smf.Rpc.Connection.{Connection}
use smf.Rpc.RecvContext.{Platform}
use smf.Rpc.Framing.{IsSendable, frame, written-send}
use smf.Filter.Apply.{rpc_filter_apply}
use smf.Client.{
  Config, Client, is_conn_valid, raw_send, send_request, filtered, dispatch_write, write_to,
  write_done,
}
use smf.Client.Calls.{sends, writes_oldest, write_oldest, step, run}
use smf.Client.SlotMap.{find, insert}

module _ {S O : Type 0} (p : Platform) (g : Config S O) (e e' : Envelope) (c : Client S O)
    (k : Connection S O) where
  abbrev session_of : ℕ
  session_of = (c.session_idx + 1) % 2 ^ 16

  -- A client after it has sent its request, with the stream `o` that the request was written to.
  abbrev pub after_request : O → Client S O
  after_request o = record c {
    conn = some (record k { ostream = o });
    session_idx = session_of;
    read_counter = (c.read_counter + 1) % 2 ^ 64;
    next_promise = c.next_promise + 1;
    rpc_slots = insert session_of c.next_promise c.rpc_slots;
    writes = [];
  }

  -- The client between the two: the request waits for its turn.
  abbrev queued : Client S O
  queued = record c {
    session_idx = session_of;
    read_counter = (c.read_counter + 1) % 2 ^ 64;
    next_promise = c.next_promise + 1;
    rpc_slots = insert session_of c.next_promise c.rpc_slots;
    writes = e' ∷ [];
  }

  sends-queued :
      is_conn_valid p g c ≡ true
      → c.gate_closed ≡ false
      → c.writes ≡ []
      → find session_of c.rpc_slots ≡ none
      → rpc_filter_apply g.out_filters (map_header (λ h. record h { session = session_of }) e)
        ≡ ready e'
      → (send_request p g e c).1 ≡ queued
  unfolding send_request raw_send filtered
  sends-queued valid open_gate idle free filt = ground (arith, filt)

  writes-queued :
      (o : O)
      → c.conn ≡ some k
      → send g.out g.debug e' k.ostream ≡ ready o
      → write_oldest p g false (e' ∷ []) queued ≡ after_request o
  unfolding write_oldest dispatch_write write_to write_done
  writes-queued o up sent = rw (up, sent) refl

  -- On a valid connection, with an open gate, no write before it and a free session, a request whose
  -- filtered letter is sendable is written whole after what was written, and takes its slot.
  pub request_written :
      c.conn ≡ some k
      → is_conn_valid p g c ≡ true
      → c.gate_closed ≡ false
      → c.writes ≡ []
      → find session_of c.rpc_slots ≡ none
      → rpc_filter_apply g.out_filters (map_header (λ h. record h { session = session_of }) e)
        ≡ ready e'
      → IsSendable p e'.letter
      → (o : O) × (run p g (sends e ∷ writes_oldest false ∷ []) c ≡ after_request o)
        × (g.out.written o ≡ g.out.written k.ostream ++ frame e'.letter)
  unfolding run step
  request_written up valid open_gate idle free filt v =
      let (o, sent, wrote) = written-send g.out p g.debug e'.letter k.ostream v in
      (
        o,
        ap (λ d. write_oldest p g false d.writes d) (sends-queued valid open_gate idle free filt)
            ∙ writes-queued o up sent,
        wrote,
      )
