-- ===== src/LoadGenerator/Benchmark.antt =====
-- `load_generator::benchmark` and `load_channel::invoke`: the channels run at the same time, under a
-- semaphore that has a unit for each of them.
pub mod Accounts
use smf.Prelude.{
  ℕ, zero, suc, ◌+◌, ◌-◌, ◌%◌, ◌^◌, Bool, true, false, not, ◌&&◌, List, [], ◌∷◌, Option, none, some,
  length, pluck, ltb, ◌==◌, if◌then◌else◌,
}
use smf.Rpc.Envelope.{Envelope}
use smf.Rpc.Envelope
use smf.LoadGenerator.{Args, Duration, reqs_per_channel, load_generator_duration, begin, end}

-- Where a channel stands that waits for the answer to its request: how many requests it has still
-- to send afterwards.
pub record Bench : Type 0 where
  pub limit : ℕ
  -- the channels that `parallel_for_each` has not come to
  pub to_launch : ℕ
  pub running : List ℕ
  -- the calls of the method that were made
  pub calls : ℕ
  pub duration : Duration
  pub returned : Bool

pub data Event : Type 0 where
  -- a channel gets its unit and sends the first request, which the generator makes
  launched : Envelope → Event
  -- the answer of a channel comes, and the next request, if there is one, is made and sent
  answered : ℕ → Envelope → Event
  -- the call of a channel fails
  call_failed : ℕ → Event
  -- the wait for all units is over
  finished : (now : ℕ) → Event

module _ (args : Args) where
  unfoldable pub benchmark : (now : ℕ) → Bench
  unfolding begin load_generator_duration
  benchmark now = record {
    limit = args.concurrency;
    to_launch = args.concurrency;
    running = [];
    calls = 0;
    duration = begin now (load_generator_duration (reqs_per_channel args));
    returned = false;
  }

  -- One round of `do_for_each`: a request is generated, its bytes are counted, and it is sent.
  unfoldable pub call_next : Envelope → Bench → Bench
  call_next e b = record b {
    calls = b.calls + 1;
    duration = record b.duration {
      total_bytes = (b.duration.total_bytes + Envelope.size e) % 2 ^ 64;
    };
  }

  -- `.finally([&limit] { limit.signal(1); })`.
  abbrev pub signal : Bench → Bench
  signal b = record b { limit = b.limit + 1 }

  launch : (limit to_launch : ℕ) → Envelope → Bench → Option Bench
  unfolding call_next
  launch (suc limit) (suc to_launch) e b = some (
      call_next e (record b {
        limit = limit;
        to_launch = to_launch;
        running = (reqs_per_channel args - 1) ∷ b.running;
      }))
  launch _ _ e b = none

  answer : Option (ℕ × List ℕ) → Envelope → Bench → Option Bench
  unfolding call_next
  answer none e b = none
  answer (some (zero, others)) e b = some (signal (record b { running = others }))
  answer (some (suc left, others)) e b = some (call_next e (record b { running = left ∷ others }))

  fail_call : Option (ℕ × List ℕ) → Bench → Option Bench
  fail_call none b = none
  fail_call (some (left, others)) b = some (signal (record b { running = others }))

  -- `limit.wait(args.concurrency)`, once every channel was launched.
  finish : (now : ℕ) → Bench → Option Bench
  unfolding end
  finish now b =
      if b.to_launch == 0 && not (ltb b.limit args.concurrency)
      then some (record b {
        limit = b.limit - args.concurrency;
        duration = end now b.duration;
        returned = true;
      })
      else none

  unfoldable pub step : Event → Bench → Option Bench
  unfolding launch answer fail_call finish
  step (launched e) b = launch b.limit b.to_launch e b
  step (answered k e) b = answer (pluck k b.running) e b
  step (call_failed k) b = fail_call (pluck k b.running) b
  step (finished now) b = if b.returned then none else finish now b

  unfoldable pub run : List Event → Bench → Option Bench
  run [] b = some b
  run (x ∷ xs) b = elim (step x b) [ none ↦ none | some b' ↦ run xs b' ]
