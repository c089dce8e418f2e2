-- ===== src/Client/Response.antt =====
-- A response that arrives resolves the request that it answers.
use smf.Prelude.{
  ℕ, ◌+◌, ◌-◌, ◌%◌, ◌^◌, ◌≡◌, refl, ap, ◌∙◌, true, false, List, ◌∷◌, ◌++◌, none, some, arith, ◌==◌,
  if◌then◌else◌,
}
use smf.Rpc.Future.{ready}
use smf.Rpc.Letter.{Letter}
use smf.Rpc.Connection.{Connection}
use smf.Rpc.RecvContext.{Platform, session}
use smf.Rpc.Framing.{IsSendable, received, frame}
use smf.Rpc.Framing.RoundTrip.{
  Awaits, parse_header-frame, parse_payload-frame, Awaits-header, Awaits-body, after_header,
  after_body,
}
use smf.Client.SlotMap.{find, erase, Distinct, find-erase}
use smf.Client.{
  Config, Client, is_conn_valid, answered, payload_read, header_read, process_on,
  process_one_request, do_reads,
}

module _ {S O : Type 0} (p : Platform) (g : Config S O) (l : Letter) (rest : List ℕ)
    (c : Client S O) (k : Connection S O) (w : ℕ) where
  abbrev after_response : Client S O
  after_response = record c {
    conn = some (after_body p g.io (received l).header.size (after_header p g.io k));
    read_counter = (c.read_counter + 2 ^ 64 - 1) % 2 ^ 64;
    rpc_slots = erase (session (received l)) c.rpc_slots;
    resolved = (w, ready (some (received l))) ∷ c.resolved;
  }

  session-received : session (received l) ≡ l.header.session
  unfolding session received
  session-received = ground arith

  process-response :
      g.debug ≡ false
      → IsSendable p l
      → Awaits p g.io k (frame l ++ rest)
      → find l.header.session c.rpc_slots ≡ some w
      → process_on p g (some k) c ≡ after_response
  unfolding process_on header_read payload_read answered
  process-response nd v a slot =
      rw
        (
          parse_header-frame p g.io g.debug l rest k v a,
          parse_payload-frame p g.io l rest (after_header p g.io k) v
              (Awaits-header p g.io l rest k a),
          nd,
        )
        (ground (arith, session-received))

  do_reads-response :
      g.debug ≡ false
      → c.conn ≡ some k
      → is_conn_valid p g c ≡ true
      → IsSendable p l
      → Awaits p g.io k (frame l ++ rest)
      → find l.header.session c.rpc_slots ≡ some w
      → do_reads p g false c ≡ after_response
  unfolding do_reads process_one_request
  do_reads-response nd hasconn valid v a slot =
      simp (valid) (ap (λ o. process_on p g o c) hasconn ∙ process-response nd v a slot)

  -- In a release build, when a sendable message comes next on the valid connection of a client
  -- whose slots have distinct sessions and that has a promise for the message's session, one round
  -- of `do_reads` resolves that promise with the message as it was sent, frees its slot and no
  -- other, and leaves what follows on the wire.
  pub response_resolves :
      g.debug ≡ false
      → c.conn ≡ some k
      → is_conn_valid p g c ≡ true
      → IsSendable p l
      → Awaits p g.io k (frame l ++ rest)
      → Distinct c.rpc_slots
      → find l.header.session c.rpc_slots ≡ some w
      → ((do_reads p g false c).resolved ≡ (w, ready (some (received l))) ∷ c.resolved)
        × ((t : ℕ)
            → find t (do_reads p g false c).rpc_slots
              ≡ (if l.header.session == t then none else find t c.rpc_slots))
        × ((k' : Connection S O) × ((do_reads p g false c).conn ≡ some k') × Awaits p g.io k' rest)
  response_resolves nd hasconn valid v a d slot = rw (do_reads-response nd hasconn valid v a slot) (
    refl,
    (λ t. rw (session-received) (find-erase l.header.session c.rpc_slots t d)),
    (
      after_body p g.io (received l).header.size (after_header p g.io k),
      refl,
      Awaits-body p g.io l rest (after_header p g.io k) v (Awaits-header p g.io l rest k a),
    ),
  )
