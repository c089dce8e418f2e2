-- ===== src/Client/Ahead/Reads.antt =====
-- The reads of a client do not depend on its writes.
use Prim.Native.String.{String}
use smf.Prelude.{
  ℕ, ◌≡◌, refl, Bool, true, false, ◌&&◌, List, not, if◌then◌else◌, Option, none, some, inl, inr,
  ◌==◌, Bool-cases,
}
use smf.Rpc.Future.{Future, ready, failed}
use smf.Rpc.Header.{Header}
use smf.Rpc.Envelope.{Envelope}
use smf.Rpc.Connection.{Connection}
use smf.Rpc.RecvContext.{Platform, RecvContext, parse_payload}
use smf.Client.{
  Config, Client, Late, thrown, no_header, no_payload, response, is_conn_valid,
  fail_outstanding_futures, answered, payload_read, header_read, process_on, process_one_request,
  do_reads, late_error, late_answered, late_read,
}
use smf.Client.Ahead.{ahead, fail-ahead, fail_with-ahead}

module _ {S O : Type 0} (p : Platform) (g : Config S O) (xs : List Envelope) where
  answered-ahead :
      (r : Option ℕ) (ctx : RecvContext) (c : Client S O)
      → answered p g r ctx (ahead p g xs c) ≡ ahead p g xs (answered p g r ctx c)
  unfolding answered
  answered-ahead none ctx c = fail_with-ahead p g xs "Invalid session" c
  answered-ahead (some w) ctx c = refl

  payload_read-ahead :
      (r : Option RecvContext) (c : Client S O)
      → payload_read p g r (ahead p g xs c) ≡ ahead p g xs (payload_read p g r c)
  unfolding payload_read
  payload_read-ahead none c =
      fail_with-ahead p g xs "Could not parse response from server. Bad payload" c
  payload_read-ahead (some ctx) c = answered-ahead _ ctx c

  header_read-ahead :
      (r : Future (Option Header)) (k : Connection S O) (c : Client S O)
      → header_read p g r k (ahead p g xs c) ≡ ahead p g xs (header_read p g r k c)
  unfolding header_read
  header_read-ahead (failed x) k c = fail-ahead p g xs c
  header_read-ahead (ready none) k c =
      fail_with-ahead p g xs "Could not parse header from server" (record c { conn = some k })
  header_read-ahead (ready (some h)) k c = elim (Bool-cases (g.debug && c.read_counter == 0)) [
    | inl threw ↦
        rw threw (fail-ahead p g xs (record c { conn = some (parse_payload p g.io h k).1 }))
    | inr fine ↦ rw fine (
        payload_read-ahead (parse_payload p g.io h k).0
          (record c { conn = some (parse_payload p g.io h k).1 }))
  ]

  process-ahead :
      (k : Option (Connection S O)) (c : Client S O)
      → process_on p g k (ahead p g xs c) ≡ ahead p g xs (process_on p g k c)
  unfolding process_on
  process-ahead none c = refl
  process-ahead (some k) c = header_read-ahead _ _ c

  pub do_reads-ahead :
      (timed_out : Bool) (c : Client S O)
      → do_reads p g timed_out (ahead p g xs c) ≡ ahead p g xs (do_reads p g timed_out c)
  unfolding do_reads process_one_request
  do_reads-ahead true c = go (is_conn_valid p g c)
    where
      go :
          (valid : Bool)
          → (if not valid then ahead p g xs c else fail_outstanding_futures p g (ahead p g xs c))
            ≡ ahead p g xs (if not valid then c else fail_outstanding_futures p g c)
      go true = fail-ahead p g xs c
      go false = refl
  do_reads-ahead false c = elim (Bool-cases (is_conn_valid p g c)) [
    | inl up ↦ rw up (process-ahead c.conn c)
    | inr down ↦ rw down refl
  ]

  late_error-ahead :
      (same : Bool) (e : String) (c : Client S O)
      → late_error p g same e (ahead p g xs c) ≡ ahead p g xs (late_error p g same e c)
  unfolding late_error
  late_error-ahead true e c = fail_with-ahead p g xs e c
  late_error-ahead false e c = fail-ahead p g xs c

  late_answered-ahead :
      (same : Bool) (r : Option ℕ) (ctx : RecvContext) (c : Client S O)
      → late_answered p g same r ctx (ahead p g xs c)
        ≡ ahead p g xs (late_answered p g same r ctx c)
  unfolding late_answered
  late_answered-ahead same none ctx c = late_error-ahead same "Invalid session" c
  late_answered-ahead same (some w) ctx c = answered-ahead (some w) ctx c

  pub late_read-ahead :
      (same : Bool) (l : Late p g) (c : Client S O)
      → late_read p g same l (ahead p g xs c) ≡ ahead p g xs (late_read p g same l c)
  unfolding late_read
  late_read-ahead same thrown c = refl
  late_read-ahead same no_header c = late_error-ahead same "Could not parse header from server" c
  late_read-ahead same no_payload c = elim (Bool-cases (g.debug && c.read_counter == 0)) [
    | inl threw ↦ rw threw refl
    | inr fine ↦
        rw fine (late_error-ahead same "Could not parse response from server. Bad payload" c)
  ]
  late_read-ahead same (response ctx) c = elim (Bool-cases (g.debug && c.read_counter == 0)) [
    | inl threw ↦ rw threw refl
    | inr fine ↦ rw fine (late_answered-ahead same _ ctx c)
  ]
