-- ===== src/Rpc/Tests.antt =====
-- The message layer at concrete values.
use smf.Prelude.{ℕ, ◌≡◌, ◌≤◌, ◌↔◌, refl, true, false, List, [], ◌∷◌, ◌++◌, none, some, arith, All}
use Prim.Native.Nat.{bit_and}
use smf.Samples.{
  list_input, list_output, sample_platform, sample_header, sample_letter, sample_letter-IsSendable,
  with_bytes,
}
use smf.Rpc.Future.{ready}
use smf.Rpc.Header.{to_bytes}
use smf.Rpc.Checksum.{rpc_checksum_payload}
use smf.Rpc.Letter.{Letter}
use smf.Rpc.Envelope.{send}
use smf.Rpc.Connection.{Connection}
use smf.Rpc.RecvContext.{check_header, check_payload}
use smf.Rpc.Framing.{IsSendable, received}
use smf.Rpc.Framing.RoundTrip.{Awaits, frames, receive_many, receive_many-frames}
use smf.Rpc.Framing.Rejects.{
  IsAccepted, check_header-IsAccepted, check_payload-iff_intact, zero_checksum_is_lost,
}

two_letters-IsSendable : All (IsSendable sample_platform) (sample_letter ∷ sample_letter ∷ [])
two_letters-IsSendable = (sample_letter-IsSendable, (sample_letter-IsSendable, tt))

two_letters-Awaits :
    Awaits sample_platform list_input
      (with_bytes (frames (sample_letter ∷ sample_letter ∷ []) ++ 1 ∷ []))
      (frames (sample_letter ∷ sample_letter ∷ []) ++ 1 ∷ [])
two_letters-Awaits = record { pending = refl; idle = refl }

receive_many-frames_example :
    (c' : Connection (List ℕ) (List ℕ)) × (receive_many sample_platform list_input true 2
        (with_bytes (frames (sample_letter ∷ sample_letter ∷ []) ++ 1 ∷ []))
      ≡ (some (received sample_letter) ∷ some (received sample_letter) ∷ [], c'))
    × Awaits sample_platform list_input c' (1 ∷ [])
receive_many-frames_example =
    receive_many-frames sample_platform list_input true (sample_letter ∷ sample_letter ∷ [])
      (1 ∷ []) (with_bytes (frames (sample_letter ∷ sample_letter ∷ []) ++ 1 ∷ []))
      two_letters-IsSendable two_letters-Awaits

check_header-IsAccepted_example :
    (check_header sample_platform (to_bytes sample_header) ≡ some sample_header)
    ↔ IsAccepted sample_platform (to_bytes sample_header) sample_header
check_header-IsAccepted_example =
    check_header-IsAccepted sample_platform (to_bytes sample_header) sample_header

check_payload-iff_intact_example :
    (check_payload sample_platform sample_header (4 ∷ 6 ∷ []) ≡ some (received sample_letter)) ↔ (
      (received sample_letter ≡ record { header = sample_header; payload = 4 ∷ 6 ∷ [] })
      × (2 ≡ sample_header.size)
      × (2 ≤ sample_platform.max_buffer_size)
      × (bit_and sample_header.bitflags 1 ≡ 0)
      × (rpc_checksum_payload sample_platform.xxh64 (4 ∷ 6 ∷ []) 2 ≡ sample_header.checksum))
check_payload-iff_intact_example =
    check_payload-iff_intact sample_platform sample_header (4 ∷ 6 ∷ []) (received sample_letter)

abbrev unlucky_letter : Letter
unlucky_letter = record sample_letter { header = record sample_header { checksum = 0 } }

zero_checksum_is_lost_example :
    (send list_output false (record { letter = unlucky_letter }) []
      ≡ ready (to_bytes unlucky_letter.header ++ unlucky_letter.body))
    × (check_header sample_platform (to_bytes unlucky_letter.header) ≡ none)
zero_checksum_is_lost_example =
    zero_checksum_is_lost list_output sample_platform unlucky_letter []
      (record {
        compression_fits = omega arith;
        bitflags_fits = omega arith;
        session_fits = omega arith;
        size_fits = omega arith;
        checksum_fits = omega arith;
        meta_fits = omega arith;
      })
      refl
