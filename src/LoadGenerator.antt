-- ===== src/LoadGenerator.antt =====
-- src/include/smf/load_generator.h, load_generator_args.h, load_channel.h and
-- load_generator_duration.h: requests are sent over channels, each channel one request at a time.
pub mod Benchmark
pub mod Division
mod Tests
use smf.Prelude.{
  ℕ, zero, suc, ◌+◌, ◌-◌, ◌/◌, ◌%◌, ◌^◌, ◌<◌, Bool, true, false, ◌&&◌, List, [], ◌∷◌, ◌++◌, Option,
  ltb, ◌==◌, if◌then◌else◌,
}
use smf.Rpc.Future.{Future, ready, failed, runtime_error}
use smf.Rpc.Envelope.{Envelope}
use smf.Rpc.RecvContext.{RecvContext, compression_zstd, compression_lz4}
use smf.Filter.Codec.{Zstd, Lz4}
use smf.Filter.Compression.{
  zstd_compression_filter, zstd_decompression_filter, lz4_compression_filter,
  lz4_decompression_filter,
}

pub record Args : Type 0 where
  pub num_of_req : ℕ
  pub concurrency : ℕ
  pub memory_per_core : ℕ
  pub compression : ℕ

abbrev pub min_memory : ℕ
min_memory = 2 ^ 24

-- The constructor checks the memory, unless there is one channel.
unfoldable pub load_generator_args :
    (num_of_req concurrency memory_per_core compression : ℕ) → Future Args
load_generator_args num_of_req concurrency memory_per_core compression =
    if ltb memory_per_core min_memory && ltb 1 concurrency
    then failed runtime_error
    else ready (record {
      num_of_req = num_of_req;
      concurrency = concurrency;
      memory_per_core = memory_per_core;
      compression = compression;
    })

-- A channel, with what its client is set up with.
pub record Channel : Type 0 where
  pub channel_id : ℕ
  pub memory_avail_for_client : ℕ
  pub in_filters : List (RecvContext → Future RecvContext)
  pub out_filters : List (Envelope → Future Envelope)

module _ (xxh64 : List ℕ → ℕ) (z : Zstd) (l : Lz4) where
  unfoldable pub load_channel : (id mem compression : ℕ) → Channel
  load_channel id mem compression =
      if compression == compression_zstd
      then record {
        channel_id = id;
        memory_avail_for_client = mem;
        in_filters = zstd_decompression_filter xxh64 z l ∷ [];
        out_filters = zstd_compression_filter xxh64 z l 1024 ∷ [];
      }
      else if compression == compression_lz4
      then record {
        channel_id = id;
        memory_avail_for_client = mem;
        in_filters = lz4_decompression_filter xxh64 z l ∷ [];
        out_filters = lz4_compression_filter xxh64 z l 1024 ∷ [];
      }
      else record {
        channel_id = id;
        memory_avail_for_client = mem;
        in_filters = [];
        out_filters = [];
      }

  -- One channel for each unit of concurrency; `rand` gives the ids.
  unfoldable pub channels_from : (rand : ℕ → ℕ) → (i count : ℕ) → Args → List Channel
  unfolding load_channel
  channels_from rand i zero args = []
  channels_from rand i (suc count) args =
      load_channel (rand i) (args.memory_per_core / args.concurrency) args.compression
      ∷ channels_from rand (i + 1) count args

  unfoldable pub load_generator : (rand : ℕ → ℕ) → Args → List Channel
  unfolding channels_from
  load_generator rand args = channels_from rand 0 args.concurrency args

abbrev max : ℕ → ℕ → ℕ
max a b = if ltb a b then b else a

-- `std::ceil` is given the quotient of two integers, which is rounded down by then, and its result
-- is converted to a uint32_t. Without a channel the division, and for a quotient of 2 ^ 32 and more
-- the conversion, is undefined; `HasQuotient` rules both out.
unfoldable pub reqs_per_channel : Args → ℕ
reqs_per_channel args = max 1 (args.num_of_req / args.concurrency % 2 ^ 32)

abbrev pub HasQuotient : Args → Type 0
HasQuotient args = (0 < args.concurrency) × (args.num_of_req / args.concurrency < 2 ^ 32)

-- Times are in nanoseconds of the clock.
pub record Duration : Type 0 where
  pub num_of_req : ℕ
  pub test_begin : ℕ
  pub test_end : ℕ
  pub total_bytes : ℕ

unfoldable pub load_generator_duration : ℕ → Duration
load_generator_duration reqs = record {
  num_of_req = reqs;
  test_begin = 0;
  test_end = 0;
  total_bytes = 0;
}

unfoldable pub begin : (now : ℕ) → Duration → Duration
begin now d = record d { test_begin = now }

unfoldable pub end : (now : ℕ) → Duration → Duration
end now d = record d { test_end = now }

unfoldable pub duration_in_millis : Duration → ℕ
duration_in_millis d = (d.test_end - d.test_begin) / 1000000
