-- ===== src/Server/Writes/Arrive.antt =====
-- The replies that a server writes on a connection are those that its client reads.
use mathlib.Core.Path.{subst}
use smf.Prelude.{
  ◌≡◌, refl, ap, sym, ◌∙◌, Bool, true, List, [], ◌∷◌, ◌++◌, append-nil, map, some, arith, All,
  length,
}
use smf.Rpc.Stream.{InputStream, OutputStream}
use smf.Rpc.Envelope.{Envelope}
use smf.Rpc.Letter.{Letter}
use smf.Rpc.Connection.{Connection}
use smf.Rpc.RecvContext.{Platform}
use smf.Rpc.Framing.{IsSendable, received}
use smf.Rpc.Framing.RoundTrip.{Awaits, frames, receive_many, receive_many-frames}
use smf.Server.Writes.{Writer, Event, fresh, goes_out, run}
use smf.Server.Writes.Serial.{replies, sent, sent_one-true, replies_serialize}

abbrev pub letters : List Envelope → List Letter
letters [] = []
letters (e ∷ es) = e.letter ∷ letters es

module _ {S O : Type 0} (p : Platform) (io : InputStream S) (out : OutputStream O)
    (debug : Bool) where
  goes_out-IsSendable : (e : Envelope) → IsSendable p e.letter → goes_out out debug e ≡ true
  goes_out-IsSendable e v = ground arith

  sent-frames :
      (es : List Envelope)
      → All (IsSendable p) (letters es)
      → sent out debug es ≡ frames (letters es)
  unfolding sent
  sent-frames [] v = refl
  sent-frames (e ∷ es) v =
      rw (sent_one-true out debug e (goes_out-IsSendable e v.0), sent-frames es v.1) refl

  -- On a connection on which nothing was written before, when every reply that came is sendable and
  -- none is being sent any more, a peer that is between two messages and has the written bytes, and
  -- no others, before it reads exactly the replies, in the order in which they came, however their
  -- writes interleaved.
  pub replies_arrive :
      (o : O) (xs : List Event) (w : Writer O) (c : Connection S O)
      → out.written o ≡ []
      → run out debug xs (fresh out debug o) ≡ some w
      → w.sending ≡ []
      → All (IsSendable p) (letters (replies xs))
      → Awaits p io c (out.written w.ostream)
      → (c' : Connection S O) × (receive_many p io debug (length (letters (replies xs))) c
          ≡ (map (λ l. some (received l)) (letters (replies xs)), c'))
        × Awaits p io c' []
  replies_arrive o xs w c new done idle v a =
      receive_many-frames p io debug (letters (replies xs)) [] c v (subst (Awaits p io c) all a)
    where
      all : out.written w.ostream ≡ frames (letters (replies xs)) ++ []
      all =
          (replies_serialize out debug o xs w done).2 idle
          ∙ ap (λ bs. bs ++ sent out debug (replies xs)) new
          ∙ sent-frames (replies xs) v
          ∙ sym (append-nil (frames (letters (replies xs))))
