-- ===== src/Client/Calls.antt =====
-- The calls of a client's operations, one after another, in any order.
use smf.Prelude.{List, [], ◌∷◌, Bool}
use smf.Rpc.Future.{Future}
use smf.Rpc.Envelope.{Envelope}
use smf.Rpc.RecvContext.{Platform}
use smf.Client.{
  Config, Client, Late, send_request, dispatch_write, do_reads, late_read, stop, connect, reconnect,
  begin_reconnect, reopen,
}

module _ {S O : Type 0} (p : Platform) (g : Config S O) where
  pub data Call : Type 0 where
    -- a call of `send`, and the oldest write's turn
    sends : Envelope → Call
    writes_oldest : (broken : Bool) → Call
    -- a round of `do_reads`, with or without its timeout
    reads : Bool → Call
    -- a read that its timeout left behind ends
    reads_late : (same : Bool) → Late p g → Call
    stops : Call
    connects reconnects : Future (S × O) → Call
    -- the two parts of a reconnect, with other calls between them
    begins_reconnect : Call
    reopens : Future (S × O) → Call

  unfoldable pub write_oldest : (broken : Bool) → List Envelope → Client S O → Client S O
  unfolding dispatch_write
  write_oldest broken [] c = c
  write_oldest broken (e ∷ es) c = dispatch_write p g broken e (record c { writes = es })

  unfoldable pub step : Call → Client S O → Client S O
  unfolding send_request write_oldest do_reads late_read stop connect reconnect begin_reconnect
      reopen
  step (sends e) c = (send_request p g e c).1
  step (writes_oldest broken) c = write_oldest broken c.writes c
  step (reads timed_out) c = do_reads p g timed_out c
  step (reads_late same l) c = late_read p g same l c
  step stops c = stop p g c
  step (connects socket) c = (connect p g socket c).1
  step (reconnects socket) c = (reconnect p g socket c).1
  step begins_reconnect c = begin_reconnect p g c
  step (reopens socket) c = (reopen p g socket c).1

  unfoldable pub run : List Call → Client S O → Client S O
  run [] c = c
  run (x ∷ xs) c = run xs (step x c)
