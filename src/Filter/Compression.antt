-- ===== src/Filter/Compression.antt =====
-- src/core/lz4_filter.cc and src/core/zstd_filter.cc, which differ in the codec and the flag alone.
use smf.Prelude.{ℕ, not, List, length, leb, ◌==◌, if◌then◌else◌}
use smf.Rpc.Future.{Future, ready, ◌>>=◌}
use smf.Rpc.Checksum.{checksum_rpc}
use smf.Rpc.Envelope.{Envelope}
use smf.Rpc.RecvContext.{RecvContext, compression_none, compression_zstd, compression_lz4}
use smf.Filter.Codec.{Codec, lz4, zstd, Zstd, Lz4, make_unique}

module _ (xxh64 : List ℕ → ℕ) where
  -- The new body, under the flag and with its own size and checksum.
  abbrev pub with_body : ℕ → List ℕ → Envelope → Envelope
  with_body flag buf e = record {
    letter = record e.letter {
      header = checksum_rpc xxh64 (record e.letter.header { compression = flag }) buf (length buf);
      body = buf;
    };
  }

  abbrev pub with_payload : List ℕ → RecvContext → RecvContext
  with_payload buf ctx = record {
    header =
        checksum_rpc xxh64 (record ctx.header { compression = compression_none }) buf (length buf);
    payload = buf;
  }

  unfoldable pub compress_with :
      Codec → (flag min_compression_size : ℕ) → Envelope → Future Envelope
  compress_with compressor flag min_compression_size e =
      if not (e.letter.header.compression == compression_none)
      then ready e
      else if leb (length e.letter.body) min_compression_size
      then ready e
      else (do buf ← compressor.compress e.letter.body; ready (with_body flag buf e))

  unfoldable pub uncompress_with : Codec → (flag : ℕ) → RecvContext → Future RecvContext
  uncompress_with compressor flag ctx =
      if ctx.header.compression == flag
      then (do buf ← compressor.uncompress ctx.payload; ready (with_payload buf ctx))
      else ready ctx

  module _ (z : Zstd) (l : Lz4) where
    unfoldable pub lz4_compression_filter : ℕ → Envelope → Future Envelope
    unfolding compress_with
    lz4_compression_filter = compress_with (make_unique z l lz4) compression_lz4

    unfoldable pub lz4_decompression_filter : RecvContext → Future RecvContext
    unfolding uncompress_with
    lz4_decompression_filter = uncompress_with (make_unique z l lz4) compression_lz4

    unfoldable pub zstd_compression_filter : ℕ → Envelope → Future Envelope
    unfolding compress_with
    zstd_compression_filter = compress_with (make_unique z l zstd) compression_zstd

    unfoldable pub zstd_decompression_filter : RecvContext → Future RecvContext
    unfolding uncompress_with
    zstd_decompression_filter = uncompress_with (make_unique z l zstd) compression_zstd
