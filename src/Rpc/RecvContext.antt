-- ===== src/Rpc/RecvContext.antt =====
-- src/core/rpc_recv_context.cc: a message is read in two steps, first the header, then the body
-- that the header announces.
use Prim.Native.Nat.{bit_and}
use smf.Prelude.{
  ℕ, ◌+◌, ◌-◌, ◌≡◌, Bool, true, not, ◌&&◌, List, Option, none, some, length, ltb, ◌==◌,
  if◌then◌else◌,
}
use smf.Rpc.Future.{Future, ready, failed, runtime_error}
use smf.Rpc.Stream.{InputStream}
use smf.Rpc.Header.{Header, of_bytes}
use smf.Rpc.Checksum.{rpc_checksum_payload}
use smf.Rpc.Connection.{Connection}

pub record RecvContext : Type 0 where
  pub header : Header
  pub payload : List ℕ

unfoldable pub request_id : RecvContext → ℕ
request_id ctx = ctx.header.meta

unfoldable pub status : RecvContext → ℕ
status ctx = ctx.header.meta

unfoldable pub session : RecvContext → ℕ
session ctx = ctx.header.session

-- The values of `compression_flags`.
abbrev pub compression_none : ℕ
compression_none = 0

abbrev pub compression_disabled : ℕ
compression_disabled = 1

abbrev pub compression_zstd : ℕ
compression_zstd = 2

abbrev pub compression_lz4 : ℕ
compression_lz4 = 3

-- What is not in the repository: the hash, the comparison `compression() > compression_flags_MAX`
-- on a byte, whose sign the generated header decides, and FLATBUFFERS_MAX_BUFFER_SIZE.
pub record Platform : Type 0 where
  pub xxh64 : List ℕ → ℕ
  pub above_max : ℕ → Bool
  pub max_buffer_size : ℕ
  -- A byte below 128 reads the same signed and unsigned.
  pub above_max-eq-ltb : (b : ℕ) → ltb b 128 ≡ true → above_max b ≡ ltb 3 b

module _ (p : Platform) where
  -- The tests of `parse_header` on the bytes that were read, in their order.
  unfoldable pub check_header : List ℕ → Option Header
  check_header bytes =
      let hdr = of_bytes bytes in
      if not (16 == length bytes)
      then none
      else if hdr.size == 0
      then none
      else if p.above_max hdr.compression
      then none
      else if hdr.checksum == 0
      then none
      else if hdr.meta == 0
      then none
      else if hdr.compression == compression_disabled
      then some (record hdr { compression = compression_none })
      else some hdr

  -- The tests of `parse_payload`, in their order.
  unfoldable pub check_payload : Header → List ℕ → Option RecvContext
  check_payload hdr body =
      if not (hdr.size == length body)
      then none
      else if ltb p.max_buffer_size hdr.size
      then none
      else if not (bit_and hdr.bitflags 1 == 0)
      then none
      else if not (rpc_checksum_payload p.xxh64 body (length body) == hdr.checksum)
      then none
      else some (record { header = hdr; payload = body })

  module _ {S O : Type 0} (io : InputStream S) where
    -- The counter goes up before the read, and down whatever the read brings. A read that fails is an
    -- event of the server or the client, which sees the exception.
    unfoldable pub parse_header :
        (debug : Bool) → Connection S O → Future (Option Header) × Connection S O
    parse_header debug conn =
        let (bytes, rest) = io.read_exactly 16 conn.istream in
        let parsing = record conn { istream_active_parser = conn.istream_active_parser + 1 } in
        let read = record parsing { istream = rest } in
        if debug && not (conn.istream_active_parser == 0) then (failed runtime_error, conn) else (
          ready (check_header bytes),
          record read { istream_active_parser = read.istream_active_parser - 1 },
        )

    -- Nothing but the stream changes; a read that fails is an event here too.
    unfoldable pub parse_payload : Header → Connection S O → Option RecvContext × Connection S O
    parse_payload hdr conn =
        let (body, rest) = io.read_exactly hdr.size conn.istream in
        (check_payload hdr body, record conn { istream = rest })
