-- ===== src/Filter/Codec.antt =====
-- src/core/compression.cc. The two compression libraries are parameters.
use smf.Prelude.{
  ℕ, ◌%◌, ◌^◌, ◌<◌, ◌≡◌, refl, not, List, [], ◌∷◌, ◌++◌, Option, none, some, arith, length, take,
  drop, ltb, ◌==◌, if◌then◌else◌,
}
use smf.Prelude.Bytes.{to_le, from_le, from_le-to_le}
use smf.Rpc.Future.{Future, ready, failed, runtime_error, undefined_behaviour}

-- ZSTD_findDecompressedSize.
pub data ContentSize : Type 0 where
  content_error content_unknown : ContentSize
  content_size : ℕ → ContentSize

-- An error code of zstd is `none`.
pub record Zstd : Type 0 where
  pub find_decompressed_size : List ℕ → ContentSize
  pub decompress : ℕ → List ℕ → Option (List ℕ)
  pub compress : List ℕ → Option (List ℕ)
  -- A frame made in one pass stores the size of its content, and decompresses to it.
  pub size-compress :
      (data' out : List ℕ)
      → compress data' ≡ some out
      → find_decompressed_size out ≡ content_size (length data')
  pub decompress-compress :
      (data' out : List ℕ) → compress data' ≡ some out → decompress (length data') out ≡ some data'

-- The int that the functions of lz4 return: negative, or the count of the bytes that were written.
pub data Lz4Result : Type 0 where
  negative : Lz4Result
  wrote : List ℕ → Lz4Result

pub record Lz4 : Type 0 where
  pub compress_default : List ℕ → Lz4Result
  -- LZ4_decompress_safe, with the capacity of the destination.
  pub decompress_safe : ℕ → List ℕ → Lz4Result
  -- What was compressed decompresses into a destination of its size.
  pub decompress-compress :
      (data' : List ℕ) (b : ℕ) (out : List ℕ)
      → compress_default data' ≡ wrote (b ∷ out)
      → decompress_safe (length data') (b ∷ out) ≡ wrote data'

pub data CodecType : Type 0 where
  lz4 zstd : CodecType

pub record Codec : Type 0 where
  pub compress : List ℕ → Future (List ℕ)
  pub uncompress : List ℕ → Future (List ℕ)

module _ (z : Zstd) where
  zstd_decompressed : ℕ → Option (List ℕ) → Future (List ℕ)
  zstd_decompressed zstd_size none = failed runtime_error
  zstd_decompressed zstd_size (some body) =
      if not (zstd_size == length body) then failed runtime_error else ready body

  unfoldable pub zstd_uncompress : List ℕ → Future (List ℕ)
  unfolding zstd_decompressed
  zstd_uncompress bytes = elim (z.find_decompressed_size bytes) [
    | content_error ↦ failed runtime_error
    | content_unknown ↦ failed runtime_error
    | content_size zstd_size ↦ zstd_decompressed zstd_size (z.decompress zstd_size bytes)
  ]

  unfoldable pub zstd_compress : List ℕ → Future (List ℕ)
  zstd_compress bytes = elim (z.compress bytes) [
    | none ↦ failed runtime_error
    | some out ↦ ready out
  ]

module _ (l : Lz4) where
  -- The length of the data stands before it, in four bytes.
  lz4_compressed : ℕ → Lz4Result → Future (List ℕ)
  lz4_compressed size negative = failed runtime_error
  lz4_compressed size (wrote []) = failed runtime_error
  lz4_compressed size (wrote (b ∷ out)) = ready (to_le 4 (size % 2 ^ 32) ++ b ∷ out)

  unfoldable pub lz4_compress : List ℕ → Future (List ℕ)
  unfolding lz4_compressed
  lz4_compress bytes = lz4_compressed (length bytes) (l.compress_default bytes)

  lz4_decompressed : Lz4Result → Future (List ℕ)
  lz4_decompressed negative = failed runtime_error
  lz4_decompressed (wrote []) = failed runtime_error
  lz4_decompressed (wrote (b ∷ out)) = ready (b ∷ out)

  -- Fewer than four bytes are read past their end.
  unfoldable pub lz4_uncompress : List ℕ → Future (List ℕ)
  unfolding lz4_decompressed
  lz4_uncompress bytes =
      if ltb (length bytes) 4
      then failed undefined_behaviour
      else lz4_decompressed (l.decompress_safe (from_le (take 4 bytes)) (drop 4 bytes))

unfoldable pub make_unique : Zstd → Lz4 → CodecType → Codec
make_unique z l lz4 = record { compress = lz4_compress l; uncompress = lz4_uncompress l }
make_unique z l zstd = record { compress = zstd_compress z; uncompress = zstd_uncompress z }

zstd-RoundTrip :
    (z : Zstd) (bytes out : List ℕ)
    → zstd_compress z bytes ≡ ready out
    → zstd_uncompress z out ≡ ready bytes
unfolding zstd_compress zstd_uncompress
zstd-RoundTrip z bytes out e =
    ground (arith, z.size-compress bytes out, z.decompress-compress bytes out)

lz4-RoundTrip :
    (l : Lz4) (b : ℕ) (bytes out : List ℕ) (r : Lz4Result)
    → length (b ∷ bytes) < 2 ^ 32
    → l.compress_default (b ∷ bytes) ≡ r
    → lz4_compress l (b ∷ bytes) ≡ ready out
    → lz4_uncompress l out ≡ ready (b ∷ bytes)
unfolding lz4_compress lz4_uncompress to_le
lz4-RoundTrip l b bytes out negative h c e = ground arith
lz4-RoundTrip l b bytes out (wrote []) h c e = ground arith
lz4-RoundTrip l b bytes out (wrote (d ∷ ds)) h c e =
    ground (arith, from_le-to_le 4 (length (b ∷ bytes)), l.decompress-compress (b ∷ bytes) d ds)

abbrev pub IsLossless : Codec → List ℕ → Type 0
IsLossless c bytes = (out : List ℕ) → c.compress bytes ≡ ready out → c.uncompress out ≡ ready bytes

-- Both codecs give back every body that is not empty and whose size fits four bytes, if they
-- compress it at all.
pub uncompress-compress :
    (z : Zstd) (l : Lz4) (t : CodecType) (bytes out : List ℕ)
    → 0 < length bytes
    → length bytes < 2 ^ 32
    → (make_unique z l t).compress bytes ≡ ready out
    → (make_unique z l t).uncompress out ≡ ready bytes
unfolding make_unique
uncompress-compress z l lz4 [] out pos h e = absurd (omega arith)
uncompress-compress z l lz4 (b ∷ bytes) out pos h e = lz4-RoundTrip l b bytes out _ h refl e
uncompress-compress z l zstd bytes out pos h e = zstd-RoundTrip z bytes out e

pub make_unique-IsLossless :
    (z : Zstd) (l : Lz4) (t : CodecType) (bytes : List ℕ)
    → 0 < length bytes
    → length bytes < 2 ^ 32
    → IsLossless (make_unique z l t) bytes
make_unique-IsLossless z l t bytes pos h out e = uncompress-compress z l t bytes out pos h e
