-- ===== src/LoadGenerator/Tests.antt =====
-- A benchmark of seven requests over two channels.
use smf.Prelude.{◌+◌, ◌≡◌, refl, true, List, [], ◌∷◌, some, arith}
use smf.Samples.{sample_envelope}
use smf.LoadGenerator.{Args, Channel, load_generator, HasQuotient}
use smf.LoadGenerator.Benchmark.{
  Bench, Event, launched, answered, call_failed, finished, benchmark, run,
}
use smf.LoadGenerator.Benchmark.Accounts.{lost_along, all_requests, benchmark-accounts}

abbrev seven : Args
seven = record { num_of_req = 7; concurrency = 2; memory_per_core = 101; compression = 2 }

seven-HasQuotient : HasQuotient seven
seven-HasQuotient = (omega arith, omega arith)

-- The second channel loses its connection at its second request.
abbrev one_fails : List Event
one_fails =
    launched sample_envelope
    ∷ launched sample_envelope
    ∷ answered 0 sample_envelope
    ∷ call_failed 0
    ∷ answered 0 sample_envelope
    ∷ answered 0 sample_envelope
    ∷ answered 0 sample_envelope
    ∷ finished 9
    ∷ []

one_fails_runs :
    (b : Bench) × (run seven one_fails (benchmark seven 1) ≡ some b) × (b.returned ≡ true)
unfolding run smf.LoadGenerator.Benchmark.step benchmark smf.LoadGenerator.reqs_per_channel
one_fails_runs = (_, refl, refl)

benchmark-accounts_example :
    (one_fails_runs.0.running ≡ [])
    × (one_fails_runs.0.to_launch ≡ 0)
    × (one_fails_runs.0.calls + lost_along seven one_fails (benchmark seven 1) ≡ all_requests seven)
benchmark-accounts_example =
    benchmark-accounts seven 1 one_fails one_fails_runs.0 seven-HasQuotient one_fails_runs.1
      one_fails_runs.2
