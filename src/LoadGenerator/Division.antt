-- ===== src/LoadGenerator/Division.antt =====
-- How the requests and the memory of a load generator are divided over its channels.
use native.Mathlib.Nat.{suc-mul, mul-div-le, zero-mul}
use smf.Prelude.{ℕ, zero, suc, ◌+◌, ◌*◌, ◌/◌, ◌≤◌, ◌≡◌, refl, ap, List, arith, length, sum_by}
use smf.Filter.Codec.{Zstd, Lz4}
use smf.LoadGenerator.{Args, Channel, load_channel, channels_from, load_generator}

module _ (xxh64 : List ℕ → ℕ) (z : Zstd) (l : Lz4) where
  channel-memory : (id mem c : ℕ) → (load_channel xxh64 z l id mem c).memory_avail_for_client ≡ mem
  unfolding load_channel
  channel-memory id mem c = ground arith

  channels-memory :
      (rand : ℕ → ℕ) (i count : ℕ) (args : Args)
      → sum_by
          (λ (c : Channel). c.memory_avail_for_client)
          (channels_from xxh64 z l rand i count args)
        ≡ count * (args.memory_per_core / args.concurrency)
  unfolding channels_from
  channels-memory rand i zero args =
      omega (arith, zero-mul (args.memory_per_core / args.concurrency))
  channels-memory rand i (suc count) args = omega (
    arith,
    suc-mul count (args.memory_per_core / args.concurrency),
    channel-memory (rand i) (args.memory_per_core / args.concurrency) args.compression,
    channels-memory rand (i + 1) count args,
  )

  length-channels :
      (rand : ℕ → ℕ) (i count : ℕ) (args : Args)
      → length (channels_from xxh64 z l rand i count args) ≡ count
  unfolding channels_from
  length-channels rand i zero args = refl
  length-channels rand i (suc count) args = ap suc (length-channels rand (i + 1) count args)

  -- A load generator has as many channels as it was asked for, and the memory of all its clients is
  -- at most the memory of the core.
  pub load_generator-memory :
      (rand : ℕ → ℕ) (args : Args)
      → (length (load_generator xxh64 z l rand args) ≡ args.concurrency)
        × (sum_by (λ (c : Channel). c.memory_avail_for_client) (load_generator xxh64 z l rand args)
            ≤ args.memory_per_core)
  unfolding load_generator
  load_generator-memory rand args = (
    length-channels rand 0 args.concurrency args,
    omega (
      arith,
      channels-memory rand 0 args.concurrency args,
      mul-div-le args.memory_per_core args.concurrency,
    ),
  )
