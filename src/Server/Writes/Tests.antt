-- ===== src/Server/Writes/Tests.antt =====
-- Two replies whose writes interleave.
use smf.Prelude.{ℕ, ◌≡◌, refl, List, [], ◌∷◌, map, some, length, ◌≤◌, ◌++◌, true}
use smf.Samples.{
  list_input, list_output, sample_platform, sample_letter, sample_envelope,
  sample_letter-IsSendable, with_bytes,
}
use smf.Rpc.Connection.{Connection}
use smf.Rpc.Framing.{received}
use smf.Rpc.Framing.RoundTrip.{Awaits, receive_many}
use smf.Server.Writes.{Writer, Event, replied, goes_on, flushed, fresh, run}
use smf.Server.Writes.Serial.{replies, sent, Refines, replies_serialize}
use smf.Server.Writes.Arrive.{replies_arrive}

-- The second reply comes while the first is being sent.
abbrev two_replies : List Event
two_replies =
    replied sample_envelope
    ∷ goes_on 0
    ∷ replied sample_envelope
    ∷ flushed
    ∷ goes_on 0
    ∷ goes_on 0
    ∷ goes_on 0
    ∷ goes_on 0
    ∷ goes_on 0
    ∷ []

two_replies_run :
    (w : Writer (List ℕ)) × (run list_output true two_replies (fresh list_output true []) ≡ some w)
    × (w.sending ≡ [])
unfolding run smf.Server.Writes.step fresh
two_replies_run = (_, refl, refl)

replies_serialize_example :
    Refines list_output true [] (replies two_replies) two_replies_run.0
    × (length two_replies_run.0.sending ≤ 1)
    × (two_replies_run.0.sending ≡ []
        → two_replies_run.0.ostream ≡ [] ++ sent list_output true (replies two_replies))
replies_serialize_example =
    replies_serialize list_output true [] two_replies two_replies_run.0 two_replies_run.1

replies_arrive_example :
    (c' : Connection (List ℕ) (List ℕ)) × (receive_many sample_platform list_input true 2
        (with_bytes two_replies_run.0.ostream)
      ≡ (map (λ l. some (received l)) (sample_letter ∷ sample_letter ∷ []), c'))
    × Awaits sample_platform list_input c' []
replies_arrive_example =
    replies_arrive sample_platform list_input list_output true [] two_replies two_replies_run.0
      (with_bytes two_replies_run.0.ostream) refl two_replies_run.1 two_replies_run.2
      (sample_letter-IsSendable, (sample_letter-IsSendable, tt))
      (record { pending = refl; idle = refl })
