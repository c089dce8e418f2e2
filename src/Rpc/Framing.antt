-- ===== src/Rpc/Framing.antt =====
-- Messages on the wire: what `rpc_envelope::send` of src/core/rpc_envelope.cc writes is what
-- `parse_header` and `parse_payload` of src/core/rpc_recv_context.cc read.
pub mod RoundTrip
pub mod Rejects
use Prim.Native.Nat.{bit_and}
use mathlib.Core.List.{flat_map}
use smf.Prelude.{
  ℕ, zero, suc, ◌+◌, ◌-◌, ◌≤◌, ◌<◌, ◌≡◌, refl, sym, ◌∙◌, ap, ◌≢◌, Bool, true, false, List, [], ◌∷◌,
  ◌++◌, append_assoc, Option, none, some, arith, length, take, drop, take-length-append,
  drop-length-append, ltb, ◌==◌, if◌then◌else◌,
}
use smf.Rpc.Future.{Future, ready, failed}
use smf.Rpc.Stream.{InputStream, OutputStream}
use smf.Rpc.Header.{Header, to_bytes, of_bytes, Fits, of_bytes-to_bytes, length-to_bytes}
use smf.Rpc.Checksum.{rpc_checksum_payload}
use smf.Rpc.Letter.{Letter}
use smf.Rpc.Envelope.{Envelope, send}
use smf.Rpc.Connection.{Connection}
use smf.Rpc.RecvContext.{
  Platform, RecvContext, check_header, check_payload, parse_header, parse_payload,
  compression_disabled, compression_none,
}

module _ {S O : Type 0} (p : Platform) (io : InputStream S) where
  receive_body :
      Future (Option Header) → Connection S O → Future (Option RecvContext) × Connection S O
  receive_body (failed e) c = (failed e, c)
  receive_body (ready none) c = (ready none, c)
  receive_body (ready (some h)) c = let (ctx, c') = parse_payload p io h c in (ready ctx, c')

  -- Both steps in a row, as each reader of a connection makes them.
  unfoldable pub receive :
      (debug : Bool) → Connection S O → Future (Option RecvContext) × Connection S O
  unfolding receive_body
  receive debug conn = let (hdr, c) = parse_header p io debug conn in receive_body hdr c

  body-ostream :
      (r : Future (Option Header)) (c : Connection S O) → (receive_body r c).1.ostream ≡ c.ostream
  unfolding receive_body parse_payload
  body-ostream (failed e) c = refl
  body-ostream (ready none) c = refl
  body-ostream (ready (some h)) c = refl

  header-ostream :
      (debug : Bool) (c : Connection S O) → (parse_header p io debug c).1.ostream ≡ c.ostream
  unfolding parse_header
  header-ostream debug c = ground arith

  -- Reading leaves what was written alone.
  pub receive-ostream :
      (debug : Bool) (c : Connection S O) → (receive debug c).1.ostream ≡ c.ostream
  unfolding receive
  receive-ostream debug c =
      body-ostream (parse_header p io debug c).0 (parse_header p io debug c).1
      ∙ header-ostream debug c

-- A letter as the sending side leaves it: the header describes the body, a request id or a status
-- is set, and no payload headers are announced.
pub record IsSendable (p : Platform) (l : Letter) : Type 0 where
  pub fits : Fits l.header
  pub sized : l.header.size ≡ length l.body
  pub not_empty : 0 < length l.body
  pub not_huge : length l.body ≤ p.max_buffer_size
  pub no_flags : l.header.bitflags ≡ 0
  pub known_compression : l.header.compression ≤ 3
  pub summed : l.header.checksum ≡ rpc_checksum_payload p.xxh64 l.body (length l.body)
  pub has_checksum : 0 < l.header.checksum
  pub has_meta : 0 < l.header.meta

-- The receiver reads `disabled` as `none`; all else arrives as it was sent.
unfoldable pub received : Letter → RecvContext
received l = record {
  header =
      if l.header.compression == compression_disabled
      then record l.header { compression = compression_none }
      else l.header;
  payload = l.body;
}

-- The bytes of one message.
unfoldable pub frame : Letter → List ℕ
frame l = to_bytes l.header ++ l.body

module _ {O : Type 0} (out : OutputStream O) where
  -- Sending a sendable letter writes its header and its body, in this order and nothing else, after
  -- what was written, in a debug build too.
  pub written-send :
      (p : Platform) (debug : Bool) (l : Letter) (o : O)
      → IsSendable p l
      → (o' : O) × (send out debug (record { letter = l }) o ≡ ready o')
        × (out.written o' ≡ out.written o ++ frame l)
  unfolding send frame
  written-send p debug l o v = (
    out.flush (out.write l.body (out.write (to_bytes l.header) o)),
    ground arith,
    out.written-flush _
        ∙ out.written-write l.body _
        ∙ ap (λ bs. bs ++ l.body) (out.written-write (to_bytes l.header) o)
        ∙ append_assoc (out.written o) (to_bytes l.header) l.body,
  )

pub check_header-to_bytes :
    (p : Platform) (l : Letter)
    → IsSendable p l
    → check_header p (to_bytes l.header) ≡ some (received l).header
unfolding check_header received
check_header-to_bytes p l v =
    rw (of_bytes-to_bytes l.header v.fits)
      (ground (arith, length-to_bytes l.header, p.above_max-eq-ltb l.header.compression))

pub check_payload-body :
    (p : Platform) (l : Letter)
    → IsSendable p l
    → check_payload p (received l).header l.body ≡ some (received l)
unfolding check_payload received
check_payload-body p l v = ground arith
