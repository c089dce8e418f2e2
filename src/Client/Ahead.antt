-- ===== src/Client/Ahead.antt =====
-- What a client does, does not depend on the writes that are ahead of its own.
pub mod Reads
use Prim.Native.String.{String}
use smf.Prelude.{
  ℕ, ◌+◌, ◌%◌, ◌^◌, ◌≡◌, refl, Bool, true, false, ◌&&◌, List, [], ◌∷◌, ◌++◌, append_assoc, sym, ap,
  not, if◌then◌else◌, ◌∙◌, Option, none, some, arith, inl, inr, ◌==◌, Bool-cases,
}
use smf.Rpc.Future.{Future, ready, failed, invalid_connection_state, runtime_error}
use smf.Rpc.Header.{Header}
use smf.Rpc.Envelope.{Envelope, map_header}
use smf.Filter.Apply.{rpc_filter_apply}
use smf.Rpc.Connection.{Connection, set_error}
use smf.Rpc.RecvContext.{Platform, RecvContext, session, parse_header, parse_payload}
use smf.Client.SlotMap.{find, insert}
use smf.Client.{
  Config, Client, Late, thrown, no_header, no_payload, response, is_conn_valid, map_conn, fail_all,
  fail_outstanding_futures, filtered, raw_send, send_request, write_done, write_to, dispatch_write,
  fail_with, answered, payload_read, header_read, process_on, process_one_request, Sent, refused,
  do_reads, late_error, late_answered, late_read, stop, connected, connect, begin_reconnect,
}

module _ {S O : Type 0} (p : Platform) (g : Config S O) (xs : List Envelope) where
  abbrev pub ahead : Client S O → Client S O
  ahead c = record c { writes = xs ++ c.writes }

  pub fail-ahead :
      (c : Client S O)
      → fail_outstanding_futures p g (ahead c) ≡ ahead (fail_outstanding_futures p g c)
  unfolding fail_outstanding_futures
  fail-ahead c = elim (Bool-cases (is_conn_valid p g c)) [
    | inl up ↦ ground arith
    | inr down ↦ ground arith
  ]

  map_conn-ahead :
      (f : Connection S O → Connection S O) (c : Client S O)
      → map_conn p g f (ahead c) ≡ ahead (map_conn p g f c)
  map_conn-ahead f c = go c.conn
    where
      go :
          (k : Option (Connection S O))
          → elim k [ none ↦ ahead c | some j ↦ record (ahead c) { conn = some (f j) } ]
            ≡ ahead (elim k [ none ↦ c | some j ↦ record c { conn = some (f j) } ])
      go none = refl
      go (some j) = refl

  pub fail_with-ahead :
      (e : String) (c : Client S O) → fail_with p g e (ahead c) ≡ ahead (fail_with p g e c)
  unfolding fail_with
  fail_with-ahead e c =
      ap (fail_outstanding_futures p g) (map_conn-ahead (set_error e) c)
      ∙ fail-ahead (map_conn p g (set_error e) c)

  filtered-ahead :
      (v : ℕ) (r : Future Envelope) (c : Client S O)
      → (filtered p g v r (ahead c)).1 ≡ ahead (filtered p g v r c).1
  unfolding filtered
  filtered-ahead v (failed x) c = refl
  filtered-ahead v (ready e) c = go c.gate_closed
    where
      go :
          (shut : Bool)
          → record c { writes = if shut then xs ++ c.writes else (xs ++ c.writes) ++ e ∷ [] }
            ≡ record c { writes = xs ++ (if shut then c.writes else c.writes ++ e ∷ []) }
      go true = refl
      go false =
          ap (λ (ws : List Envelope). record c { writes = ws }) (append_assoc xs c.writes (e ∷ []))

  raw_send-ahead :
      (e : Envelope) (c : Client S O) → (raw_send p g e (ahead c)).1 ≡ ahead (raw_send p g e c).1
  unfolding raw_send
  raw_send-ahead e c = go (is_conn_valid p g c) (find idx c.rpc_slots) g.debug
    where
      idx : ℕ
      idx = (c.session_idx + 1) % 2 ^ 16

      counted : Client S O
      counted = record c { session_idx = idx; read_counter = (c.read_counter + 1) % 2 ^ 64 }

      r : Future Envelope
      r = rpc_filter_apply g.out_filters (map_header (λ h. record h { session = idx }) e)

      slotted : Client S O
      slotted = record counted {
        next_promise = c.next_promise + 1;
        rpc_slots = insert idx c.next_promise c.rpc_slots;
      }

      sent : Client S O → Client S O → Client S O → Bool → Option ℕ → Bool → Sent p g × Client S O
      sent d counted slotted valid taken debug =
          if not valid then (refused invalid_connection_state, d) else elim taken [
            | none ↦ filtered p g c.next_promise r slotted
            | some w ↦
                if debug
                then (refused runtime_error, counted)
                else filtered p g c.next_promise r slotted
          ]

      go :
          (valid : Bool) (taken : Option ℕ) (debug : Bool)
          → (sent (ahead c) (ahead counted) (ahead slotted) valid taken debug).1
            ≡ ahead (sent c counted slotted valid taken debug).1
      go false taken debug = refl
      go true none debug = filtered-ahead c.next_promise r slotted
      go true (some w) true = refl
      go true (some w) false = filtered-ahead c.next_promise r slotted

  pub send_request-ahead :
      (e : Envelope) (c : Client S O)
      → (send_request p g e (ahead c)).1 ≡ ahead (send_request p g e c).1
  unfolding send_request
  send_request-ahead e c = ground (arith, raw_send-ahead e c)

  write_done-ahead :
      (k : Connection S O) (r : Future O) (c : Client S O)
      → write_done p g k r (ahead c) ≡ ahead (write_done p g k r c)
  unfolding write_done
  write_done-ahead k (failed x) c = fail-ahead c
  write_done-ahead k (ready o) c = refl

  write_to-ahead :
      (k : Option (Connection S O)) (e : Envelope) (c : Client S O)
      → write_to p g k e (ahead c) ≡ ahead (write_to p g k e c)
  unfolding write_to
  write_to-ahead none e c = refl
  write_to-ahead (some k) e c = write_done-ahead k _ c

  pub dispatch_write-ahead :
      (broken : Bool) (e : Envelope) (c : Client S O)
      → dispatch_write p g broken e (ahead c) ≡ ahead (dispatch_write p g broken e c)
  unfolding dispatch_write
  dispatch_write-ahead true e c = fail-ahead c
  dispatch_write-ahead false e c = write_to-ahead c.conn e c

  pub stop-ahead : (c : Client S O) → stop p g (ahead c) ≡ ahead (stop p g c)
  unfolding stop
  stop-ahead c = ap (λ (d : Client S O). record d { gate_closed = true }) (fail-ahead c)

  pub begin_reconnect-ahead :
      (c : Client S O) → begin_reconnect p g (ahead c) ≡ ahead (begin_reconnect p g c)
  unfolding begin_reconnect
  begin_reconnect-ahead c =
      ap (stop p g) (fail-ahead c) ∙ stop-ahead (fail_outstanding_futures p g c)

  connected-ahead :
      (socket : Future (S × O)) (c : Client S O)
      → (connected p g socket (ahead c)).1 ≡ ahead (connected p g socket c).1
  unfolding connected
  connected-ahead (failed x) c = refl
  connected-ahead (ready (i, o)) c = refl

  pub connect-ahead :
      (socket : Future (S × O)) (c : Client S O)
      → (connect p g socket (ahead c)).1 ≡ ahead (connect p g socket c).1
  unfolding connect
  connect-ahead socket c = elim (Bool-cases (is_conn_valid p g c)) [
    | inl up ↦ rw up refl
    | inr down ↦ rw down (connected-ahead socket c)
  ]
