-- ===== src/Rpc/Checksum.antt =====
-- src/include/smf/rpc_header_utils.h. XXH64 with seed 0 is a parameter.
use smf.Prelude.{ℕ, ◌%◌, ◌^◌, ◌<◌, ◌≡◌, List, arith, take, length, take-length}
use smf.Rpc.Header.{Header}

module _ (xxh64 : List ℕ → ℕ) where
  -- The size is a uint32_t; `UINT32_MAX & x` keeps the low 32 bits.
  unfoldable pub rpc_checksum_payload : List ℕ → ℕ → ℕ
  rpc_checksum_payload payload size = xxh64 (take (size % 2 ^ 32) payload) % 2 ^ 32

  unfoldable pub checksum_rpc : Header → List ℕ → ℕ → Header
  checksum_rpc hdr payload size = record hdr {
    checksum = rpc_checksum_payload payload size;
    size = size % 2 ^ 32;
  }

  pub checksum-lt : (payload : List ℕ) (size : ℕ) → rpc_checksum_payload payload size < 2 ^ 32
  unfolding rpc_checksum_payload
  checksum-lt payload size = omega arith

  -- Of a payload that a uint32_t can measure, every byte is hashed.
  pub checksum_whole :
      (payload : List ℕ)
      → length payload < 2 ^ 32
      → rpc_checksum_payload payload (length payload) ≡ xxh64 payload % 2 ^ 32
  unfolding rpc_checksum_payload
  checksum_whole payload h =
      let e : length payload % 2 ^ 32 ≡ length payload = omega arith in rw (e, take-length payload)
