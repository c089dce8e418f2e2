-- ===== src/Filter/EndToEnd.antt =====
-- Compression by the sender's filter and decompression by the receiver's, with the wire between.
use smf.Prelude.{ℕ, ◌<◌, ◌≡◌, ◌≢◌, ◌⊎◌, inl, inr, List, arith, length}
use smf.Rpc.Future.{Future, ready, Future-cases}
use smf.Rpc.Checksum.{checksum_rpc}
use smf.Rpc.Envelope.{Envelope}
use smf.Rpc.RecvContext.{Platform, RecvContext, compression_none, compression_zstd, compression_lz4}
use smf.Rpc.Framing.{IsSendable, received}
use smf.Filter.Codec.{
  Codec, CodecType, make_unique, IsLossless, make_unique-IsLossless, Zstd, Lz4, lz4, zstd,
}
use smf.Filter.Compression.{
  compress_with, uncompress_with, with_body, lz4_compression_filter, lz4_decompression_filter,
  zstd_compression_filter, zstd_decompression_filter,
}

module _ (p : Platform) where
  restored :
      (c : Codec) (flag : ℕ) (e : Envelope) (buf : List ℕ)
      → flag ≢ 0
      → flag ≢ 1
      → IsSendable p e.letter
      → e.letter.header.compression ≡ compression_none
      → c.uncompress buf ≡ ready e.letter.body
      → uncompress_with p.xxh64 c flag (received (with_body p.xxh64 flag buf e).letter)
        ≡ ready (received e.letter)
  unfolding uncompress_with received checksum_rpc
  restored c flag e buf n0 n1 v plain u = ground (arith, v.fits.size_fits)

  untouched :
      (c : Codec) (flag : ℕ) (e : Envelope)
      → flag ≢ 0
      → e.letter.header.compression ≡ compression_none
      → uncompress_with p.xxh64 c flag (received e.letter) ≡ ready (received e.letter)
  unfolding uncompress_with received
  untouched c flag e n0 plain = ground arith

  -- A compression filter leaves a message as it is or replaces the body by its compression.
  pub compress_with-cases :
      (c : Codec) (flag min_size : ℕ) (e e' : Envelope)
      → compress_with p.xxh64 c flag min_size e ≡ ready e'
      → (e' ≡ e)
        ⊎ ((buf : List ℕ) × (c.compress e.letter.body ≡ ready buf)
            × (e' ≡ with_body p.xxh64 flag buf e)
            × (e.letter.header.compression ≡ compression_none)
            × (min_size < length e.letter.body))
  unfolding compress_with
  compress_with-cases c flag min_size e e' done = elim (Future-cases (c.compress e.letter.body)) [
    | inl (buf, r) ↦ ground arith
    | inr (x, r) ↦ ground arith
  ]

  filter_inverts :
      (c : Codec) (flag min_size : ℕ) (e e' : Envelope)
      → flag ≢ 0
      → flag ≢ 1
      → IsSendable p e.letter
      → e.letter.header.compression ≡ compression_none
      → IsLossless c e.letter.body
      → compress_with p.xxh64 c flag min_size e ≡ ready e'
      → uncompress_with p.xxh64 c flag (received e'.letter) ≡ ready (received e.letter)
  filter_inverts c flag min_size e e' n0 n1 v plain lossless done =
      elim (compress_with-cases c flag min_size e e' done) [
        | inl same ↦ rw same (untouched c flag e n0 plain)
        | inr (buf, r, changed, _, _) ↦
            rw changed (restored c flag e buf n0 n1 v plain (lossless buf r))
      ]

  abbrev pub compression_filter : Zstd → Lz4 → CodecType → ℕ → Envelope → Future Envelope
  compression_filter z l lz4 = lz4_compression_filter p.xxh64 z l
  compression_filter z l zstd = zstd_compression_filter p.xxh64 z l

  abbrev pub decompression_filter : Zstd → Lz4 → CodecType → RecvContext → Future RecvContext
  decompression_filter z l lz4 = lz4_decompression_filter p.xxh64 z l
  decompression_filter z l zstd = zstd_decompression_filter p.xxh64 z l

  -- For either codec and every threshold: if the compression filter of the sender does not fail on
  -- a sendable uncompressed message, the decompression filter of the receiver turns the message
  -- that arrives into the one that would have arrived uncompressed, its size and its checksum
  -- included.
  pub filters_invert :
      (z : Zstd) (l : Lz4) (t : CodecType) (min_size : ℕ) (e e' : Envelope)
      → IsSendable p e.letter
      → e.letter.header.compression ≡ compression_none
      → compression_filter z l t min_size e ≡ ready e'
      → decompression_filter z l t (received e'.letter) ≡ ready (received e.letter)
  unfolding lz4_compression_filter lz4_decompression_filter zstd_compression_filter
      zstd_decompression_filter
  filters_invert z l lz4 min_size e e' v plain done =
      filter_inverts (make_unique z l lz4) compression_lz4 min_size e e' (omega arith) (omega arith)
        v plain
        (make_unique-IsLossless z l lz4 e.letter.body v.not_empty
          (omega (arith, v.sized, v.fits.size_fits)))
        done
  filters_invert z l zstd min_size e e' v plain done =
      filter_inverts (make_unique z l zstd) compression_zstd min_size e e' (omega arith)
        (omega arith) v plain
        (make_unique-IsLossless z l zstd e.letter.body v.not_empty
          (omega (arith, v.sized, v.fits.size_fits)))
        done
