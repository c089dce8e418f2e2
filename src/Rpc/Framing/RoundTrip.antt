-- ===== src/Rpc/Framing/RoundTrip.antt =====
-- What is sent arrives: one message, and any number of them in a row.
use smf.Prelude.{
  ℕ, zero, suc, ◌+◌, ◌-◌, ◌≡◌, refl, ◌∙◌, ap, Bool, List, [], ◌∷◌, ◌++◌, append_assoc, map, Option,
  none, some, arith, All, length, take, drop, take-length-append, drop-length-append,
}
use smf.Rpc.Future.{Future, ready, failed}
use smf.Rpc.Stream.{InputStream}
use smf.Rpc.Header.{to_bytes}
use smf.Rpc.Letter.{Letter}
use smf.Rpc.Connection.{Connection}
use smf.Rpc.RecvContext.{Platform, RecvContext, parse_header, parse_payload}
use smf.Rpc.Framing.{
  IsSendable, received, frame, receive, receive_body, check_header-to_bytes, check_payload-body,
}

take_header : (l : Letter) (rest : List ℕ) → take 16 (frame l ++ rest) ≡ to_bytes l.header
unfolding frame to_bytes
take_header l rest = refl

drop_header : (l : Letter) (rest : List ℕ) → drop 16 (frame l ++ rest) ≡ l.body ++ rest
unfolding frame to_bytes
drop_header l rest = refl

size-received : (l : Letter) → (received l).header.size ≡ l.header.size
unfolding received
size-received l = ground arith

abbrev pub frames : List Letter → List ℕ
frames [] = []
frames (l ∷ ls) = frame l ++ frames ls

abbrev pub or_none : Future (Option RecvContext) → Option RecvContext
or_none (ready r) = r
or_none (failed e) = none

module _ {S O : Type 0} (p : Platform) (io : InputStream S) where
  -- A connection from whose stream `bytes` are still to come, between two messages.
  pub record Awaits (c : Connection S O) (bytes : List ℕ) : Type 0 where
    pub pending : io.pending c.istream ≡ bytes
    pub idle : c.istream_active_parser ≡ 0

  abbrev pub after_header : Connection S O → Connection S O
  after_header c = record c {
    istream = (io.read_exactly 16 c.istream).1;
    istream_active_parser = c.istream_active_parser + 1 - 1;
  }

  pub parse_header-frame :
      (debug : Bool) (l : Letter) (rest : List ℕ) (c : Connection S O)
      → IsSendable p l
      → Awaits c (frame l ++ rest)
      → parse_header p io debug c ≡ (ready (some (received l).header), after_header c)
  unfolding parse_header
  parse_header-frame debug l rest c v a = ground (
    arith,
    check_header-to_bytes p l v,
    io.read-eq-take 16 c.istream,
    ap (λ bs. take 16 bs) a.pending,
    take_header l rest,
  )

  pub Awaits-header :
      (l : Letter) (rest : List ℕ) (c : Connection S O)
      → Awaits c (frame l ++ rest)
      → Awaits (after_header c) (l.body ++ rest)
  Awaits-header l rest c a = record {
    pending = io.pending-read 16 c.istream ∙ ap (λ bs. drop 16 bs) a.pending ∙ drop_header l rest;
    idle = omega (arith, a.idle);
  }

  abbrev pub after_body : ℕ → Connection S O → Connection S O
  after_body n c = record c { istream = (io.read_exactly n c.istream).1 }

  pub parse_payload-frame :
      (l : Letter) (rest : List ℕ) (c : Connection S O)
      → IsSendable p l
      → Awaits c (l.body ++ rest)
      → parse_payload p io (received l).header c
        ≡ (some (received l), after_body (received l).header.size c)
  unfolding parse_payload
  parse_payload-frame l rest c v a = ground (
    arith,
    check_payload-body p l v,
    io.read-eq-take (received l).header.size c.istream,
    ap (λ bs. take (received l).header.size bs) a.pending,
    ap (λ n. take n (l.body ++ rest)) (size-received l ∙ v.sized),
    take-length-append l.body rest,
  )

  pub Awaits-body :
      (l : Letter) (rest : List ℕ) (c : Connection S O)
      → IsSendable p l
      → Awaits c (l.body ++ rest)
      → Awaits (after_body (received l).header.size c) rest
  Awaits-body l rest c v a = record {
    pending =
        io.pending-read (received l).header.size c.istream
        ∙ ap (λ bs. drop (received l).header.size bs) a.pending
        ∙ ap (λ n. drop n (l.body ++ rest)) (size-received l ∙ v.sized)
        ∙ drop-length-append l.body rest;
    idle = a.idle;
  }

  -- Whatever follows a sendable message on the wire, the message is received as it was sent, the
  -- rest stays on the wire, and the connection is between messages again.
  pub receive-frame :
      (debug : Bool) (l : Letter) (rest : List ℕ) (c : Connection S O)
      → IsSendable p l
      → Awaits c (frame l ++ rest)
      → (c' : Connection S O) × (receive p io debug c ≡ (ready (some (received l)), c'))
        × Awaits c' rest
  unfolding receive receive_body
  receive-frame debug l rest c v a = (
    after_body (received l).header.size (after_header c),
    rw (
      parse_header-frame debug l rest c v a,
      parse_payload-frame l rest (after_header c) v (Awaits-header l rest c a),
    ),
    Awaits-body l rest (after_header c) v (Awaits-header l rest c a),
  )

  -- `n` messages in a row.
  unfoldable pub receive_many :
      (debug : Bool) → ℕ → Connection S O → List (Option RecvContext) × Connection S O
  receive_many debug zero c = ([], c)
  receive_many debug (suc n) c =
      let (r, c') = receive p io debug c in
      let (rs, c'') = receive_many debug n c' in (or_none r ∷ rs, c'')

  -- Sendable messages that stand one after another on a connection that is between two messages are
  -- received one by one, in that order, each as it was sent (the flag `disabled` reads as `none`),
  -- and what follows them stays on the wire.
  pub receive_many-frames :
      (debug : Bool) (ls : List Letter) (rest : List ℕ) (c : Connection S O)
      → All (IsSendable p) ls
      → Awaits c (frames ls ++ rest)
      → (c' : Connection S O) × (receive_many debug (length ls) c
          ≡ (map (λ l. some (received l)) ls, c'))
        × Awaits c' rest
  unfolding receive_many
  receive_many-frames debug [] rest c v a = (c, refl, a)
  receive_many-frames debug (l ∷ ls) rest c v a =
      let first =
        receive-frame debug l (frames ls ++ rest) c v.0
          (rw (← append_assoc (frame l) (frames ls) rest) a) in
      let others = receive_many-frames debug ls rest first.0 v.1 first.2 in
      (others.0, rw (first.1, others.1), others.2)
