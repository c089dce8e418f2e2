-- ===== src/Rpc/Header.antt =====
-- src/core/rpc.fbs: the 16-byte header of every message, as flatbuffers lays the struct out, and
-- `checksum_rpc` of src/include/smf/rpc_header_utils.h.
use smf.Prelude.{ℕ, ◌^◌, ◌<◌, ◌≡◌, refl, List, ◌++◌, arith, length, take, drop}
use smf.Prelude.Bytes.{to_le, from_le}

pub record Header : Type 0 where
  pub compression : ℕ
  pub bitflags : ℕ
  pub session : ℕ
  pub size : ℕ
  pub checksum : ℕ
  pub meta : ℕ

-- The bytes of `std::memcpy(buf, &header, sizeof(header))`.
unfoldable pub to_bytes : Header → List ℕ
unfolding to_le
to_bytes h =
    to_le 1 h.compression
    ++ to_le 1 h.bitflags
    ++ to_le 2 h.session
    ++ to_le 4 h.size
    ++ to_le 4 h.checksum
    ++ to_le 4 h.meta

-- `std::memcpy(&hdr, buf, sizeof(header))`.
unfoldable pub of_bytes : List ℕ → Header
unfolding from_le
of_bytes bs = record {
  compression = from_le (take 1 bs);
  bitflags = from_le (take 1 (drop 1 bs));
  session = from_le (take 2 (drop 2 bs));
  size = from_le (take 4 (drop 4 bs));
  checksum = from_le (take 4 (drop 8 bs));
  meta = from_le (take 4 (drop 12 bs));
}

-- Every field fits the width that the struct gives it.
pub record Fits (h : Header) : Type 0 where
  pub compression_fits : h.compression < 2 ^ 8
  pub bitflags_fits : h.bitflags < 2 ^ 8
  pub session_fits : h.session < 2 ^ 16
  pub size_fits : h.size < 2 ^ 32
  pub checksum_fits : h.checksum < 2 ^ 32
  pub meta_fits : h.meta < 2 ^ 32

pub length-to_bytes : (h : Header) → length (to_bytes h) ≡ 16
unfolding to_bytes
length-to_bytes h = refl

-- A header whose fields fit their widths is read back from its bytes.
pub of_bytes-to_bytes : (h : Header) → Fits h → of_bytes (to_bytes h) ≡ h
unfolding of_bytes to_bytes
of_bytes-to_bytes h f = ground arith
