-- ===== src/Rpc/Framing/Rejects.antt =====
-- What is not received: short reads, bad headers, corrupted bodies.
use Prim.Native.Nat.{bit_and}
use smf.Prelude.{
  ◌==◌, if◌then◌else◌, ℕ, ◌≤◌, ◌<◌, ◌≡◌, ◌⊎◌, ◌↔◌, false, refl, List, none, some, arith, length,
}
use smf.Rpc.Future.{ready}
use smf.Rpc.Stream.{OutputStream}
use smf.Rpc.Letter.{Letter}
use smf.Rpc.Envelope.{send}
use smf.Rpc.Header.{Header, Fits, to_bytes, of_bytes, of_bytes-to_bytes, length-to_bytes}
use smf.Rpc.Checksum.{rpc_checksum_payload}
use smf.Rpc.RecvContext.{
  Platform, RecvContext, check_header, check_payload, compression_disabled, compression_none,
}

-- Everything that an accepted header was tested for, and which header the caller gets.
pub record IsAccepted (p : Platform) (bytes : List ℕ) (h : Header) : Type 0 where
  pub whole : length bytes ≡ 16
  pub has_body : 0 < (of_bytes bytes).size
  pub in_range : p.above_max (of_bytes bytes).compression ≡ false
  pub has_checksum : 0 < (of_bytes bytes).checksum
  pub has_meta : 0 < (of_bytes bytes).meta
  pub as_read : h ≡ (
      if (of_bytes bytes).compression == compression_disabled
      then record (of_bytes bytes) { compression = compression_none }
      else of_bytes bytes)

-- A header is accepted exactly when it was read whole, announces a body, a compression in range, a
-- checksum and a request id or status; the caller gets the header that was read, with `none` in
-- place of the compression `disabled`.
pub check_header-IsAccepted :
    (p : Platform) (bytes : List ℕ) (h : Header)
    → (check_header p bytes ≡ some h) ↔ IsAccepted p bytes h
unfolding check_header
check_header-IsAccepted p bytes h = (λ e. ground arith, λ a. ground arith)

-- The compression flag of an accepted header, if it is below 128, is `none`, `zstd` or `lz4`.
pub check_header-compression :
    (p : Platform) (bytes : List ℕ) (h : Header)
    → check_header p bytes ≡ some h
    → h.compression < 128
    → (h.compression ≡ 0) ⊎ (h.compression ≡ 2) ⊎ (h.compression ≡ 3)
unfolding check_header
check_header-compression p bytes h e small =
    ground (arith, p.above_max-eq-ltb (of_bytes bytes).compression)

-- A body is accepted exactly when it has the announced size, fits a flatbuffer, announces no
-- payload headers and sums to the announced checksum; it is then passed on unchanged.
pub check_payload-iff_intact :
    (p : Platform) (h : Header) (body : List ℕ) (ctx : RecvContext)
    → (check_payload p h body ≡ some ctx) ↔ (
        (ctx ≡ record { header = h; payload = body })
        × (length body ≡ h.size)
        × (h.size ≤ p.max_buffer_size)
        × (bit_and h.bitflags 1 ≡ 0)
        × (rpc_checksum_payload p.xxh64 body (length body) ≡ h.checksum))
unfolding check_payload
check_payload-iff_intact p h body ctx = (λ e. ground arith, λ e. ground arith)

-- A release build sends a letter whose header fits its widths and whose checksum is 0 like any
-- other, and no receiver takes that header.
pub zero_checksum_is_lost :
    {O : Type 0} (out : OutputStream O) (p : Platform) (l : Letter) (o : O)
    → Fits l.header
    → l.header.checksum ≡ 0
    → (send out false (record { letter = l }) o
        ≡ ready (out.flush (out.write l.body (out.write (to_bytes l.header) o))))
      × (check_header p (to_bytes l.header) ≡ none)
unfolding send check_header
zero_checksum_is_lost out p l o f e =
    (refl, rw (of_bytes-to_bytes l.header f) (ground (arith, length-to_bytes l.header)))
