-- ===== src/Client/Promises.antt =====
-- Each promise of a client is resolved once at most, and each outstanding one can still be.
use Prim.Native.String.{String}
use smf.Prelude.{
  ℕ, ◌+◌, ◌%◌, ◌^◌, ◌≡◌, refl, ◌≤◌, Bool, true, false, ◌&&◌, List, [], ◌∷◌, Option, none, some,
  arith, inl, inr, ltb, ◌==◌, Bool-cases,
}
use smf.Rpc.Future.{Future, ready, failed}
use smf.Rpc.Header.{Header}
use smf.Rpc.Envelope.{Envelope, map_header}
use smf.Filter.Apply.{rpc_filter_apply}
use smf.Rpc.Connection.{Connection, set_error}
use smf.Rpc.RecvContext.{Platform, RecvContext, session, parse_payload}
use smf.Client.SlotMap.{find, insert}
use smf.Client.{
  rpc_client, reconnect, connect, connected, Config, Client, fail_outstanding_futures, filtered,
  raw_send, send_request, fail_with, answered, payload_read, header_read, process_on, do_reads,
  write_to, write_done, stop, map_conn, begin_reconnect, reopen, Late, thrown, no_header,
  no_payload, response, late_error, late_answered, late_read,
}
use smf.Client.Calls.{
  Call, sends, writes_oldest, reads, stops, reconnects, step, run, write_oldest, connects,
  reads_late, begins_reconnect, reopens,
}
use smf.Client.Counts.{one_if, uses, settled-fail_all, outstanding-insert, outstanding-erase}

-- A call that makes no promise: the counts and the number of the next promise stay.
module _ {S O : Type 0} where
  -- Promises are numbered as they are made: one that is not made yet is nowhere, and one that is
  -- made is outstanding once, or resolved once, or dropped.
  abbrev pub IsLinear : Client S O → Type 0
  IsLinear c = (w : ℕ) → uses w c ≤ one_if (ltb w c.next_promise)

  abbrev Same : ℕ → Client S O → Client S O → Type 0
  Same w c c' = (uses w c' ≡ uses w c) × (c'.next_promise ≡ c.next_promise)

module _ {S O : Type 0} (p : Platform) (g : Config S O) where
  uses-fail : (w : ℕ) (c : Client S O) → Same w c (fail_outstanding_futures p g c)
  unfolding fail_outstanding_futures
  uses-fail w c = (omega (arith, settled-fail_all p g w c.rpc_slots c.resolved), ground arith)

  uses-fail_with : (w : ℕ) (e : String) (c : Client S O) → Same w c (fail_with p g e c)
  unfolding fail_with
  uses-fail_with w e c = ground (arith, uses-fail w (map_conn p g (set_error e) c))

  uses-answered :
      (w : ℕ) (r : Option ℕ) (ctx : RecvContext) (c : Client S O)
      → find (session ctx) c.rpc_slots ≡ r
      → Same w c (answered p g r ctx c)
  unfolding answered
  uses-answered w none ctx c e = uses-fail_with w "Invalid session" c
  uses-answered w (some v) ctx c e =
      (omega (arith, outstanding-erase w (session ctx) v c.rpc_slots e), refl)

  uses-payload_read :
      (w : ℕ) (r : Option RecvContext) (c : Client S O) → Same w c (payload_read p g r c)
  unfolding payload_read
  uses-payload_read w none c =
      uses-fail_with w "Could not parse response from server. Bad payload" c
  uses-payload_read w (some ctx) c = uses-answered w _ ctx c refl

  uses-header_read :
      (w : ℕ) (r : Future (Option Header)) (k : Connection S O) (c : Client S O)
      → Same w c (header_read p g r k c)
  unfolding header_read
  uses-header_read w (failed x) k c = uses-fail w c
  uses-header_read w (ready none) k c =
      uses-fail_with w "Could not parse header from server" (record c { conn = some k })
  uses-header_read w (ready (some h)) k c = elim (Bool-cases (g.debug && c.read_counter == 0)) [
    | inl threw ↦ rw threw (uses-fail w (record c { conn = some (parse_payload p g.io h k).1 }))
    | inr fine ↦ rw fine (
        uses-payload_read w (parse_payload p g.io h k).0
          (record c { conn = some (parse_payload p g.io h k).1 }))
  ]

  uses-process :
      (w : ℕ) (k : Option (Connection S O)) (c : Client S O) → Same w c (process_on p g k c)
  unfolding process_on
  uses-process w none c = (refl, refl)
  uses-process w (some k) c = uses-header_read w _ _ c

  uses-reads : (w : ℕ) (t : Bool) (c : Client S O) → Same w c (do_reads p g t c)
  unfolding do_reads
  uses-reads w true c = ground (arith, uses-fail w c)
  uses-reads w false c = ground (arith, uses-process w c.conn c)

  uses-write_done :
      (w : ℕ) (k : Connection S O) (r : Future O) (c : Client S O) → Same w c (write_done p g k r c)
  unfolding write_done
  uses-write_done w k (failed x) c = uses-fail w c
  uses-write_done w k (ready o) c = (refl, refl)

  uses-write_to :
      (w : ℕ) (k : Option (Connection S O)) (e : Envelope) (c : Client S O)
      → Same w c (write_to p g k e c)
  unfolding write_to
  uses-write_to w none e c = (refl, refl)
  uses-write_to w (some k) e c = uses-write_done w k _ c

  uses-write_oldest :
      (w : ℕ) (b : Bool) (es : List Envelope) (c : Client S O) → Same w c (write_oldest p g b es c)
  unfolding write_oldest
  uses-write_oldest w b [] c = (refl, refl)
  uses-write_oldest w true (e ∷ es) c = ground (arith, uses-fail w (record c { writes = es }))
  uses-write_oldest w false (e ∷ es) c =
      ground (arith, uses-write_to w c.conn e (record c { writes = es }))

  uses-stop : (w : ℕ) (c : Client S O) → Same w c (stop p g c)
  unfolding stop
  uses-stop w c = uses-fail w c

  uses-filtered : (w v : ℕ) (r : Future Envelope) (c : Client S O) → Same w c (filtered p g v r c).1
  unfolding filtered
  uses-filtered w v (failed x) c = (refl, refl)
  uses-filtered w v (ready e) c = (refl, refl)

  raw_send-IsLinear : (e : Envelope) (c : Client S O) → IsLinear c → IsLinear (raw_send p g e c).1
  unfolding raw_send
  raw_send-IsLinear e c h w = ground (
    arith,
    h w,
    outstanding-insert w idx c.next_promise c.rpc_slots,
    uses-filtered w c.next_promise (rpc_filter_apply g.out_filters e') slotted,
  )
    where
      idx : ℕ
      idx = (c.session_idx + 1) % 2 ^ 16

      e' : Envelope
      e' = map_header (λ h. record h { session = idx }) e

      slotted : Client S O
      slotted = record c {
        session_idx = idx;
        read_counter = (c.read_counter + 1) % 2 ^ 64;
        next_promise = c.next_promise + 1;
        rpc_slots = insert idx c.next_promise c.rpc_slots;
      }

  send_request-IsLinear :
      (e : Envelope) (c : Client S O) → IsLinear c → IsLinear (send_request p g e c).1
  unfolding send_request
  send_request-IsLinear e c h w = ground (arith, h w, raw_send-IsLinear e c h w)

  Same-IsLinear : (c c' : Client S O) → ((w : ℕ) → Same w c c') → IsLinear c → IsLinear c'
  Same-IsLinear c c' u h w = ground (arith, u w, h w)

  uses-connected :
      (w : ℕ) (socket : Future (S × O)) (c : Client S O) → Same w c (connected p g socket c).1
  unfolding connected
  uses-connected w (failed x) c = (refl, refl)
  uses-connected w (ready (i, o)) c = (refl, refl)

  uses-connect :
      (w : ℕ) (socket : Future (S × O)) (c : Client S O) → Same w c (connect p g socket c).1
  unfolding connect
  uses-connect w socket c = ground (arith, uses-connected w socket c)

  uses-begin_reconnect : (w : ℕ) (c : Client S O) → Same w c (begin_reconnect p g c)
  unfolding begin_reconnect
  uses-begin_reconnect w c =
      ground (arith, uses-fail w c, uses-stop w (fail_outstanding_futures p g c))

  uses-reopen :
      (w : ℕ) (socket : Future (S × O)) (c : Client S O) → Same w c (reopen p g socket c).1
  unfolding reopen
  uses-reopen w socket c =
      ground
        (arith, uses-connect w socket (record c { gate_closed = false; conn = none; writes = [] }))

  uses-reconnect :
      (w : ℕ) (socket : Future (S × O)) (c : Client S O) → Same w c (reconnect p g socket c).1
  unfolding reconnect
  uses-reconnect w socket c =
      ground (arith, uses-begin_reconnect w c, uses-reopen w socket (begin_reconnect p g c))

  uses-late_error :
      (w : ℕ) (same : Bool) (e : String) (c : Client S O) → Same w c (late_error p g same e c)
  unfolding late_error
  uses-late_error w true e c = uses-fail_with w e c
  uses-late_error w false e c = uses-fail w c

  uses-late_answered :
      (w : ℕ) (same : Bool) (r : Option ℕ) (ctx : RecvContext) (c : Client S O)
      → find (session ctx) c.rpc_slots ≡ r
      → Same w c (late_answered p g same r ctx c)
  unfolding late_answered
  uses-late_answered w same none ctx c e = uses-late_error w same "Invalid session" c
  uses-late_answered w same (some v) ctx c e = uses-answered w (some v) ctx c e

  uses-late_read :
      (w : ℕ) (same : Bool) (l : Late p g) (c : Client S O) → Same w c (late_read p g same l c)
  unfolding late_read
  uses-late_read w same thrown c = (refl, refl)
  uses-late_read w same no_header c = uses-late_error w same "Could not parse header from server" c
  uses-late_read w same no_payload c = elim (Bool-cases (g.debug && c.read_counter == 0)) [
    | inl threw ↦ rw threw (refl, refl)
    | inr fine ↦
        rw fine (uses-late_error w same "Could not parse response from server. Bad payload" c)
  ]
  uses-late_read w same (response ctx) c = elim (Bool-cases (g.debug && c.read_counter == 0)) [
    | inl threw ↦ rw threw (refl, refl)
    | inr fine ↦ rw fine (uses-late_answered w same _ ctx c refl)
  ]

  step-IsLinear : (x : Call p g) (c : Client S O) → IsLinear c → IsLinear (step p g x c)
  unfolding step
  step-IsLinear (sends e) c h = send_request-IsLinear e c h
  step-IsLinear (writes_oldest b) c h =
      Same-IsLinear c (step p g (writes_oldest b) c) (λ w. uses-write_oldest w b c.writes c) h
  step-IsLinear (reads t) c h = Same-IsLinear c (step p g (reads t) c) (λ w. uses-reads w t c) h
  step-IsLinear stops c h = Same-IsLinear c (step p g stops c) (λ w. uses-stop w c) h
  step-IsLinear (connects socket) c h =
      Same-IsLinear c (step p g (connects socket) c) (λ w. uses-connect w socket c) h
  step-IsLinear (reconnects socket) c h =
      Same-IsLinear c (step p g (reconnects socket) c) (λ w. uses-reconnect w socket c) h
  step-IsLinear (reads_late same l) c h =
      Same-IsLinear c (step p g (reads_late same l) c) (λ w. uses-late_read w same l c) h
  step-IsLinear begins_reconnect c h =
      Same-IsLinear c (step p g begins_reconnect c) (λ w. uses-begin_reconnect w c) h
  step-IsLinear (reopens socket) c h =
      Same-IsLinear c (step p g (reopens socket) c) (λ w. uses-reopen w socket c) h

  pub rpc_client-IsLinear : (credentials : Bool) → IsLinear (rpc_client p g credentials)
  unfolding rpc_client
  rpc_client-IsLinear credentials w = omega arith

  -- Along any sequence of sends, writes, reads, timeouts, late ends of reads that timed out, stops,
  -- connects and reconnects of a client, with failures of the network at any point, no promise is
  -- ever outstanding twice, resolved twice, or resolved and still outstanding, if that held at the
  -- start.
  pub run-IsLinear : (xs : List (Call p g)) (c : Client S O) → IsLinear c → IsLinear (run p g xs c)
  unfolding run
  run-IsLinear [] c h = h
  run-IsLinear (x ∷ xs) c h = run-IsLinear xs (step p g x c) (step-IsLinear x c h)
