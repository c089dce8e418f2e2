-- ===== src/Server/Writes.antt =====
-- src/core/rpc_server.cc: the replies of one connection share its output stream. Each is sent under
-- `serialize_writes` of src/include/smf/rpc_server_connection.h, a seastar::semaphore of one unit
-- whose waiters are served in the order in which they came, and a send is several writes that may
-- wait.
pub mod Serial
pub mod Arrive
mod Tests
use smf.Prelude.{
  ℕ, zero, suc, ◌+◌, ◌-◌, Bool, not, ◌&&◌, ◌||◌, List, [], ◌∷◌, ◌++◌, Option, none, some, pluck,
  ◌==◌, if◌then◌else◌,
}
use smf.Rpc.Stream.{OutputStream}
use smf.Rpc.Header.{to_bytes}
use smf.Rpc.Envelope.{Envelope}

-- A reply that holds its unit: before its checks, its header written, its body written.
pub data Sending : Type 0 where
  starting header_written body_written : Envelope → Sending

pub record Writer (O : Type 0) : Type 0 where
  pub ostream : O
  -- the count of `serialize_writes`
  pub units : ℕ
  -- who waits for it, the first first
  pub waiting : List Envelope
  -- who holds it
  pub sending : List Sending

pub data Event : Type 0 where
  -- a request is handled, and its reply comes to the semaphore
  replied : Envelope → Event
  -- one of the replies that hold a unit goes on
  goes_on : ℕ → Event
  -- a reply that was sent earlier flushes the stream
  flushed : Event

module _ {O : Type 0} (out : OutputStream O) (debug : Bool) where
  unfoldable pub fresh : O → Writer O
  fresh o = record { ostream = o; units = 1; waiting = []; sending = [] }

  -- What `rpc_envelope::send` throws for in a debug build.
  abbrev pub goes_out : Envelope → Bool
  goes_out e = not (debug && (e.letter.header.size == 0 || e.letter.header.checksum == 0))

  -- A free unit goes to the first who waits.
  wake : ℕ → List Envelope → Writer O → Writer O
  wake (suc units) (e ∷ waiting) w = record w {
    units = units;
    waiting = waiting;
    sending = starting e ∷ w.sending;
  }
  wake units waiting w = record w { units = units; waiting = waiting }

  -- `with_semaphore(serialize_writes, 1, …)`.
  unfoldable pub with_semaphore : Envelope → Writer O → Writer O
  unfolding wake
  with_semaphore e w = wake w.units (w.waiting ++ e ∷ []) w

  unfoldable pub signal : Writer O → Writer O
  unfolding wake
  signal w = wake (w.units + 1) w.waiting w

  -- The other replies that hold a unit are `others`.
  unfoldable pub go_on : Sending → List Sending → Writer O → Writer O
  unfolding signal
  go_on (starting e) others w =
      if goes_out e
      then record w {
        ostream = out.write (to_bytes e.letter.header) w.ostream;
        sending = header_written e ∷ others;
      }
      else signal (record w { sending = others })
  go_on (header_written e) others w = record w {
    ostream = out.write e.letter.body w.ostream;
    sending = body_written e ∷ others;
  }
  go_on (body_written e) others w =
      signal (record w { ostream = out.flush w.ostream; sending = others })

  at_sending : Option (Sending × List Sending) → Writer O → Option (Writer O)
  unfolding go_on
  at_sending none w = none
  at_sending (some (s, others)) w = some (go_on s others w)

  unfoldable pub step : Event → Writer O → Option (Writer O)
  unfolding with_semaphore at_sending
  step (replied e) w = some (with_semaphore e w)
  step (goes_on k) w = at_sending (pluck k w.sending) w
  step flushed w = some (record w { ostream = out.flush w.ostream })

  unfoldable pub run : List Event → Writer O → Option (Writer O)
  run [] w = some w
  run (x ∷ xs) w = elim (step x w) [ none ↦ none | some w' ↦ run xs w' ]
