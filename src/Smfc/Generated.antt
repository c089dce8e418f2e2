-- ===== src/Smfc/Generated.antt =====
-- What the C++ that src/smfc/cpp_generator.cc prints for a service means: the templates of the
-- service's handles, of its `switch` on the request id and of the client's methods, read as code
-- over the classes of src/include/smf that they call.
pub mod Dispatches
use smf.Prelude.{ℕ, List, [], ◌∷◌, Option, none, some, bit_xor, ◌==◌, if◌then◌else◌}
use Prim.Native.String.{String}
use smf.Rpc.Future.{Future, ready, failed, ◌>>=◌, undefined_behaviour}
use smf.Rpc.Envelope.{
  Envelope, TypedEnvelope, map_header, set_request_id, set_status, serialize_data,
}
use smf.Rpc.RecvContext.{RecvContext, session}
use smf.Rpc.TypedContext.{Flatbuffers, TypedContext, typed_context}
use smf.Server.Router
use smf.Server.Router.{MethodHandle}
use smf.Smfc.Schema.{Method}

-- What a user writes for one method: its types with their flatbuffers code, and the override.
pub record Implementation : Type 1 where
  pub In : Type 0
  pub Out : Type 0
  pub fbs : Flatbuffers In
  pub pack : Out → List ℕ
  pub method : TypedContext In → Future (TypedEnvelope Out)

-- A default-constructed envelope: every field of its header is 0.
abbrev pub empty_envelope : Envelope
empty_envelope = record {
  letter = record {
    header = record {
      compression = 0;
      bitflags = 0;
      session = 0;
      size = 0;
      checksum = 0;
      meta = 0;
    };
    dynamic_headers = [];
    body = [];
  };
}

-- The method of the generated class, for a service that does not override it.
unfoldable pub unimplemented :
    {In Out : Type 0} → (default : Out) → TypedContext In → Future (TypedEnvelope Out)
unfolding set_status
unimplemented default rec =
    ready (record { envelope = set_status 501 empty_envelope; content = some default })

serialized : {T : Type 0} → Option (Envelope × TypedEnvelope T) → Future Envelope
serialized none = failed undefined_behaviour
serialized (some (e, moved)) = ready e

module _ (xxh64 : List ℕ → ℕ) where
  -- `Raw…`: the typed method between the two ways of seeing a message.
  unfoldable pub raw_method : Implementation → MethodHandle
  unfolding serialized
  raw_method i c =
      i.method (typed_context i.fbs (some c)) >>= λ x. serialized (serialize_data i.pack xxh64 x)

  -- An entry of `handles_`: the answer takes the session of its request.
  unfoldable pub handle : Implementation → MethodHandle
  unfolding raw_method
  handle i c =
      let session_id = session c in
      raw_method i c >>= λ e. ready (map_header (λ h. record h { session = session_id }) e)

  -- The `switch`: one case for each method, in their order.
  unfoldable pub method_for_request_id : List Method → List Implementation → ℕ → Option MethodHandle
  unfolding handle
  method_for_request_id (m ∷ methods) (i ∷ implementations) idx =
      let others = method_for_request_id methods implementations idx in
      if bit_xor m.service_id m.method_id == idx then some (handle i) else others
  method_for_request_id _ _ idx = none

  unfoldable pub generated_service :
      (name : String) (service_id : ℕ) → List Method → List Implementation → Router.Service
  unfolding method_for_request_id
  generated_service name service_id methods implementations = record {
    service_name = name;
    service_id = service_id;
    method_for_request_id = method_for_request_id methods implementations;
  }

-- The client's method, up to its call of `send`.
unfoldable pub client_request : Method → Envelope → Envelope
unfolding set_request_id
client_request m e = set_request_id (bit_xor m.service_id m.method_id) e
