-- ===== src/Client/Sending.antt =====
-- What becomes of one request: its response, a failure of the connection, a session that is taken.
use mathlib.Core.List.{reverse, reverse-cons}
use Prim.Native.String.{String}
use smf.Prelude.{
  ℕ, ◌+◌, ◌%◌, ◌^◌, ◌≡◌, refl, ap, sym, append_assoc, ◌∙◌, true, false, List, [], ◌∷◌, ◌++◌, map,
  none, some, ◌==◌, if◌then◌else◌, arith, inl, inr, Bool-cases,
}
use smf.Rpc.Future.{ready, failed, remote_connection_error}
use smf.Rpc.Envelope.{Envelope, map_header}
use smf.Rpc.Connection.{Connection, disable, set_error, is_valid, has_error}
use smf.Rpc.RecvContext.{Platform, session}
use smf.Filter.Apply.{rpc_filter_apply}
use smf.Client.SlotMap.{Slots, find, insert_taken, find-insert}
use smf.Client.{
  Config, Client, Outcome, promised, is_conn_valid, fail_all, fail_outstanding_futures, filtered,
  raw_send, fail_with, connect, reconnect, stop,
}
use smf.Client.Promises.{IsLinear}
use smf.Client.Counts.{outstanding}

-- What the promise of a slot gets when the connection fails.
abbrev pub broken : ℕ × ℕ → ℕ × Outcome
broken (session, promise) = (promise, failed remote_connection_error)

fail_all-eq :
    {S O : Type 0} (p : Platform) (g : Config S O) (slots : Slots) (resolved : List (ℕ × Outcome))
    → fail_all p g slots resolved ≡ reverse (map broken slots) ++ resolved
unfolding fail_all
fail_all-eq p g [] resolved = refl
fail_all-eq p g ((s, w) ∷ slots) resolved =
    fail_all-eq p g slots (broken (s, w) ∷ resolved)
    ∙ sym (append_assoc (reverse (map broken slots)) (broken (s, w) ∷ []) resolved)
    ∙ ap (λ (xs : List (ℕ × Outcome)). xs ++ resolved)
        (sym (reverse-cons (broken (s, w)) (map broken slots)))

module _ {S O : Type 0} (p : Platform) (g : Config S O) where
  -- After an error that the client found itself, the connection that is there has the error added
  -- and is otherwise as it was: it is not disabled.
  error_skips_shutdown :
      (e : String) (c : Client S O) (k : Connection S O)
      → c.conn ≡ some k
      → (fail_with p g e c).conn ≡ some (set_error e k)
  unfolding fail_with fail_outstanding_futures set_error is_valid has_error
  error_skips_shutdown e c k h = ground arith

  -- However a client was given its credentials, once it has connected, a reconnect that gets a
  -- socket succeeds in plain text.
  pub reconnect_in_plaintext :
      (socket socket' : S × O) (c c' : Client S O)
      → connect p g (ready socket) c ≡ (ready tt, c')
      → ((reconnect p g (ready socket') c').0 ≡ ready tt)
        × ((reconnect p g (ready socket') c').1.encrypted ≡ false)
  unfolding connect reconnect stop fail_outstanding_futures
  reconnect_in_plaintext (i, o) (i', o') c c' h = elim (Bool-cases (is_conn_valid p g c)) [
    | inl up ↦ ground arith
    | inr down ↦ (ground arith, ground arith)
  ]

  -- In a release build, on a valid connection of a client whose promises are numbered as they are
  -- made, a session number that is still taken gives a request no slot: its promise is outstanding
  -- nowhere.
  pub taken_session_loses_promise :
      (e : Envelope) (c : Client S O) (w : ℕ)
      → g.debug ≡ false
      → is_conn_valid p g c ≡ true
      → IsLinear c
      → find ((c.session_idx + 1) % 2 ^ 16) c.rpc_slots ≡ some w
      → ((raw_send p g e c).1.rpc_slots ≡ c.rpc_slots)
        × (outstanding c.next_promise (raw_send p g e c).1.rpc_slots ≡ 0)
  unfolding raw_send filtered
  taken_session_loses_promise e c w nd v h taken = (
    ground (arith, insert_taken ((c.session_idx + 1) % 2 ^ 16) c.next_promise w c.rpc_slots),
    ground (
      arith,
      insert_taken ((c.session_idx + 1) % 2 ^ 16) c.next_promise w c.rpc_slots,
      h c.next_promise,
    ),
  )

  -- When a client with a valid connection and an open gate sends a request whose session is free
  -- and whose outgoing filters succeed, the caller gets a promise, the session finds that promise
  -- and every other session what it found before, the filtered request with that session in its
  -- header is the last to be written, and nothing is resolved.
  pub raw_send-registers :
      (e e' : Envelope) (c : Client S O)
      → is_conn_valid p g c ≡ true
      → c.gate_closed ≡ false
      → find ((c.session_idx + 1) % 2 ^ 16) c.rpc_slots ≡ none
      → rpc_filter_apply g.out_filters
          (map_header (λ h. record h { session = (c.session_idx + 1) % 2 ^ 16 }) e)
        ≡ ready e'
      → let (sent, c') = raw_send p g e c in
        (sent ≡ promised c.next_promise)
        × ((t : ℕ)
            → find t c'.rpc_slots ≡ (
                if (c.session_idx + 1) % 2 ^ 16 == t
                then some c.next_promise
                else find t c.rpc_slots))
        × (c'.writes ≡ c.writes ++ e' ∷ [])
        × (c'.resolved ≡ c.resolved)
  unfolding raw_send filtered
  raw_send-registers e e' c v unlocked free done =
      let idx = (c.session_idx + 1) % 2 ^ 16 in
      (
        ground arith,
        (λ t. ground (arith, find-insert idx c.next_promise c.rpc_slots t)),
        ground arith,
        ground arith,
      )

  -- When the connection of a client fails, every outstanding request fails with it in the order of
  -- the slots, no slot is left, and the connection is not valid.
  pub all_requests_fail :
      (c : Client S O)
      → let c' = fail_outstanding_futures p g c in
        (c'.rpc_slots ≡ [])
        × (c'.resolved ≡ reverse (map broken c.rpc_slots) ++ c.resolved)
        × (is_conn_valid p g c' ≡ false)
  unfolding fail_outstanding_futures is_valid disable
  all_requests_fail c = (refl, fail_all-eq p g c.rpc_slots c.resolved, ground arith)
