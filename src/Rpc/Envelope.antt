-- ===== src/Rpc/Envelope.antt =====
-- src/core/rpc_envelope.cc, src/include/smf/rpc_envelope.h and rpc_typed_envelope.h.
use Prim.Native.String.{String}
use text.Mathlib.Text.{◌==◌ as str_eq}
use smf.Prelude.{
  ℕ, Bool, true, false, ◌&&◌, List, [], ◌∷◌, Option, none, some, length, ◌==◌, if◌then◌else◌,
}
use smf.Rpc.Future.{Future, ready, failed, runtime_error, undefined_behaviour}
use smf.Rpc.Stream.{OutputStream}
use smf.Rpc.Header.{Header, to_bytes}
use smf.Rpc.Checksum.{checksum_rpc}
use smf.Rpc.Letter.{Letter}
use smf.Rpc.Letter

pub record Envelope : Type 0 where
  pub letter : Letter

abbrev pub map_header : (Header → Header) → Envelope → Envelope
map_header f e = record { letter = record e.letter { header = f e.letter.header } }

unfoldable pub set_request_id : ℕ → Envelope → Envelope
set_request_id id = map_header λ h. record h { meta = id }

unfoldable pub set_status : ℕ → Envelope → Envelope
set_status status = map_header λ h. record h { meta = status }

unfoldable pub size : Envelope → ℕ
unfolding Letter.size
size e = Letter.size e.letter

unfoldable pub share : Envelope → Envelope
unfolding Letter.share
share e = record { letter = Letter.share e.letter }

-- `emplace` keeps the value that a key already has.
emplace : String → String → List (String × String) → List (String × String)
emplace k v [] = (k, v) ∷ []
emplace k v ((j, w) ∷ m) = if str_eq j k then (j, w) ∷ m else (j, w) ∷ emplace k v m

-- DLOG_THROW_IF throws in a debug build alone. Its condition is written the wrong way round: it
-- holds when the pointer is there.
unfoldable pub add_dynamic_header :
    (debug : Bool) → Option String → Option String → Envelope → Future Envelope
unfolding emplace
add_dynamic_header true (some header) value e = failed runtime_error
add_dynamic_header true none (some value) e = failed runtime_error
add_dynamic_header false (some header) (some value) e = ready (record {
  letter = record e.letter { dynamic_headers = emplace header value e.letter.dynamic_headers };
})
-- A null pointer reaches the constructor of a string.
add_dynamic_header _ _ _ e = failed undefined_behaviour

module _ {O : Type 0} (out : OutputStream O) where
  -- The two checks stand before the first write, and in a debug build alone.
  unfoldable pub send : (debug : Bool) → Envelope → O → Future O
  send debug e o =
      if debug && e.letter.header.size == 0
      then failed runtime_error
      else if debug && e.letter.header.checksum == 0
      then failed runtime_error
      else ready (out.flush (out.write e.letter.body (out.write (to_bytes e.letter.header) o)))

pub record TypedEnvelope (T : Type 0) : Type 0 where
  pub envelope : Envelope
  pub content : Option T

-- `pack` is the flatbuffers serialization of the root type (`native_table_as_buffer`). The result
-- is the moved envelope and what stays behind; a second call reads a null pointer, `none` here.
module _ {T : Type 0} (pack : T → List ℕ) (xxh64 : List ℕ → ℕ) where
  unfoldable pub serialize_data : TypedEnvelope T → Option (Envelope × TypedEnvelope T)
  serialize_data t = elim t.content [
    | none ↦ none
    | some content ↦
        let body = pack content in
        let header = checksum_rpc xxh64 t.envelope.letter.header body (length body) in
        let e : Envelope = record {
          letter = record t.envelope.letter { header = header; body = body };
        } in
        some (e, record { envelope = e; content = none })
  ]
