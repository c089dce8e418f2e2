-- ===== src/Filter/Tests.antt =====
-- Filters and codecs at concrete values.
use smf.Prelude.{ℕ, ◌+◌, ◌≡◌, ◌^◌, ◌<◌, refl, List, [], ◌∷◌, ◌++◌, length, arith}
use smf.Samples.{
  sample_platform, sample_letter, sample_envelope, sample_letter-IsSendable, stored_zstd,
  stored_lz4,
}
use smf.Rpc.Future.{Future, ready, failed, runtime_error}
use smf.Rpc.Envelope.{Envelope}
use smf.Rpc.RecvContext.{compression_lz4}
use smf.Rpc.Framing.{received}
use smf.Rpc.Checksum.{checksum_rpc}
use smf.Filter.Codec.{Zstd, Lz4, zstd, lz4, make_unique, uncompress-compress}
use smf.Filter.Compression.{with_body}
use smf.Filter.EndToEnd.{compression_filter, decompression_filter, filters_invert}

-- The letter as the lz4 filter leaves it: the size in four bytes, then what the library wrote.
abbrev compressed : Envelope
compressed =
    with_body sample_platform.xxh64 compression_lz4 (2 ∷ 0 ∷ 0 ∷ 0 ∷ 0 ∷ 4 ∷ 6 ∷ []) sample_envelope

compresses :
    compression_filter sample_platform stored_zstd stored_lz4 lz4 1 sample_envelope
    ≡ ready compressed
unfolding smf.Filter.Compression.lz4_compression_filter make_unique smf.Filter.Codec.lz4_compress
    smf.Prelude.Bytes.to_le checksum_rpc
compresses = refl

filters_invert_example :
    decompression_filter sample_platform stored_zstd stored_lz4 lz4 (received compressed.letter)
    ≡ ready (received sample_letter)
filters_invert_example =
    filters_invert sample_platform stored_zstd stored_lz4 lz4 1 sample_envelope compressed
      sample_letter-IsSendable refl compresses

stores : (make_unique stored_zstd stored_lz4 zstd).compress (4 ∷ 6 ∷ []) ≡ ready (2 ∷ 4 ∷ 6 ∷ [])
unfolding make_unique smf.Filter.Codec.zstd_compress
stores = refl

uncompress-compress_example :
    (make_unique stored_zstd stored_lz4 zstd).uncompress (2 ∷ 4 ∷ 6 ∷ []) ≡ ready (4 ∷ 6 ∷ [])
uncompress-compress_example =
    uncompress-compress stored_zstd stored_lz4 zstd (4 ∷ 6 ∷ []) (2 ∷ 4 ∷ 6 ∷ []) (omega arith)
      (omega arith) stores

abbrev increments : ℕ → Future ℕ
increments n = ready (n + 1)

abbrev refuses : ℕ → Future ℕ
refuses n = failed runtime_error
