-- ===== src/EndToEnd/Tests.antt =====
-- A call of the second method of a service, at concrete values.
use smf.Prelude.{ℕ, ◌<◌, ◌^◌, ◌≡◌, refl, true, false, List, [], ◌∷◌, none, some, arith}
use smf.Samples.{list_input, list_output, sample_platform, sample_envelope, with_bytes}
use smf.Rpc.Future.{ready}
use smf.Rpc.Letter.{Letter}
use smf.Rpc.Checksum.{rpc_checksum_payload}
use smf.Rpc.Envelope.{Envelope, TypedEnvelope, set_status, set_request_id}
use smf.Rpc.Connection.{Connection, is_valid}
use smf.Rpc.Framing.{IsSendable, received, frame, receive}
use smf.Rpc.TypedContext.{Flatbuffers, TypedContext}
use smf.Server.Stats.{no_stats}
use smf.Server.Dispatch
use smf.Server.Dispatch.{Served}
use smf.Client.{Client, is_conn_valid, do_reads}
use smf.Client.Calls.{sends, writes_oldest, run}
use smf.Client.SlotMap.{find}
use smf.Client.Tests.{
  sample_config, sample_client, wire, sample_client_valid, nothing_else, session_four_free,
}
use smf.Smfc.Printer.{codes}
use smf.Smfc.Schema.{Method, StructDef}
use smf.Smfc.Generated.{
  Implementation, empty_envelope, unimplemented, raw_method, generated_service, client_request,
}
use smf.EndToEnd.Answer.{serve_one}
use smf.EndToEnd.Generated.{with_session, generated_call}

abbrev some_table : StructDef
some_table = record { name = codes "Table"; components = [] }

abbrev method : ℕ → Method
method id = record {
  name = codes "Get";
  service_name = codes "Storage";
  service_id = 1;
  method_id = id;
  request = some_table;
  response = some_table;
}

abbrev bytes_table : Flatbuffers (List ℕ)
bytes_table = record { get_root = λ bytes. bytes; verify = λ bytes view. true }

-- Answers with the status 200 and two bytes.
abbrev answers : TypedContext (List ℕ) → smf.Rpc.Future.Future (TypedEnvelope (List ℕ))
answers t = ready (record {
  envelope = record {
    letter = record empty_envelope.letter {
      header = record empty_envelope.letter.header { meta = 200 };
    };
  };
  content = some (4 ∷ 6 ∷ []);
})

abbrev implementation : Implementation
implementation = record {
  In = List ℕ;
  Out = List ℕ;
  fbs = bytes_table;
  pack = λ bytes. bytes;
  method = answers;
}

abbrev methods : List Method
methods = method 9 ∷ method 4 ∷ []

abbrev implementations : List Implementation
implementations = implementation ∷ implementation ∷ []

abbrev server_config : Dispatch.Config (List ℕ) (List ℕ)
server_config = record {
  io = list_input;
  out = list_output;
  debug = false;
  format_compression = λ c. "";
  routes = generated_service sample_platform.xxh64 "Storage" 1 methods implementations ∷ [];
  in_filters = [];
  out_filters = [];
}

abbrev two_bytes : (session meta : ℕ) → Letter
two_bytes session meta = record {
  header = record {
    compression = 0;
    bitflags = 0;
    session = session;
    size = 2;
    checksum = 9;
    meta = meta;
  };
  dynamic_headers = [];
  body = 4 ∷ 6 ∷ [];
}

two_bytes-IsSendable :
    (session meta : ℕ)
    → session < 2 ^ 16
    → meta < 2 ^ 32
    → 0 < meta
    → IsSendable sample_platform (two_bytes session meta)
unfolding rpc_checksum_payload
two_bytes-IsSendable session meta s m some_meta = record {
  fits = record {
    compression_fits = omega arith;
    bitflags_fits = omega arith;
    session_fits = s;
    size_fits = omega arith;
    checksum_fits = omega arith;
    meta_fits = m;
  };
  sized = refl;
  not_empty = omega arith;
  not_huge = omega arith;
  no_flags = refl;
  known_compression = omega arith;
  summed = refl;
  has_checksum = omega arith;
  has_meta = some_meta;
}

abbrev Ends : Type 0
Ends = Connection (List ℕ) (List ℕ)

client_sends :
    (c₂ : Client (List ℕ) (List ℕ)) × (k₂ : Ends) × (run sample_platform sample_config
        (sends (client_request (method 4) sample_envelope) ∷ writes_oldest false ∷ [])
        sample_client
      ≡ c₂)
    × (c₂.conn ≡ some k₂)
    × (k₂.ostream ≡ frame (two_bytes 4 5))
    × (k₂.istream_active_parser ≡ 0)
    × (k₂.enabled ≡ true)
    × (k₂.error ≡ none)
unfolding run smf.Client.Calls.step client_request frame smf.Rpc.Header.to_bytes find is_valid
    smf.Filter.Apply.rpc_filter_apply smf.Rpc.Envelope.send smf.Rpc.Connection.has_error
    smf.Client.SlotMap.insert
client_sends = (_, _, refl, refl, refl, refl, refl, refl)

abbrev server_has : Served (List ℕ) (List ℕ)
server_has = record { conn = with_bytes (frame (two_bytes 4 5)); stats = no_stats }

request-IsSendable :
    IsSendable sample_platform (with_session 4 (client_request (method 4) sample_envelope)).letter
unfolding client_request set_request_id
request-IsSendable = two_bytes-IsSendable 4 5 (omega arith) (omega arith) (omega arith)

implemented :
    raw_method sample_platform.xxh64 implementation
      (received (with_session 4 (client_request (method 4) sample_envelope)).letter)
    ≡ ready (record { letter = two_bytes 0 200 })
unfolding raw_method smf.Rpc.Checksum.checksum_rpc smf.Rpc.Envelope.serialize_data
    rpc_checksum_payload
implemented = refl

server_still_valid :
    is_valid list_input (receive sample_platform list_input false server_has.conn).1 ≡ true
unfolding is_valid receive smf.Rpc.RecvContext.parse_header smf.Rpc.RecvContext.check_header frame
    smf.Rpc.Header.to_bytes smf.Rpc.Header.of_bytes smf.Rpc.RecvContext.parse_payload
server_still_valid = refl

server_wrote :
    (serve_one sample_platform server_config server_has).conn.ostream ≡ frame (two_bytes 4 200)
unfolding serve_one frame smf.Rpc.Header.to_bytes receive smf.Rpc.RecvContext.parse_header
    smf.Rpc.RecvContext.check_header smf.Rpc.Header.of_bytes smf.Rpc.RecvContext.parse_payload
    smf.Rpc.RecvContext.check_payload rpc_checksum_payload Dispatch.do_dispatch_rpc
    smf.Rpc.RecvContext.request_id smf.Server.Router.get_handle_for_request generated_service
    smf.Filter.Apply.rpc_filter_apply raw_method smf.Rpc.Checksum.checksum_rpc
    smf.Rpc.Envelope.serialize_data smf.Rpc.Envelope.send is_valid smf.Smfc.Generated.handle
    smf.Rpc.RecvContext.session smf.Rpc.TypedContext.typed_context
server_wrote = refl

abbrev client_gets : Ends
client_gets = record client_sends.1 { istream = frame (two_bytes 4 200) }

client_still_valid :
    is_conn_valid sample_platform sample_config (record client_sends.0 { conn = some client_gets })
    ≡ true
unfolding is_conn_valid is_valid smf.Rpc.Connection.has_error
client_still_valid = rw (client_sends.6, client_sends.7) refl

generated_call_example :
    let after =
      do_reads sample_platform sample_config false
        (record client_sends.0 { conn = some client_gets }) in
    (after.resolved ≡ (1, ready (some (received (two_bytes 4 200)))) ∷ [])
    × (find 4 after.rpc_slots ≡ none)
generated_call_example =
    generated_call sample_platform sample_config server_config "Storage" 1 methods implementations 1
      (method 4) implementation sample_envelope (record { letter = two_bytes 0 200 }) sample_client
      client_sends.0 wire client_sends.1 server_has (frame (two_bytes 4 5))
      (frame (two_bytes 4 200)) (frame (two_bytes 4 200)) refl refl refl refl refl refl
      (refl, ((λ e. absurd (omega (arith, e))), tt), (refl, tt, tt)) refl refl refl refl
      sample_client_valid refl refl (nothing_else, tt) session_four_free request-IsSendable
      client_sends.2 client_sends.3 client_sends.4 (record { pending = refl; idle = refl })
      implemented server_still_valid server_wrote
      (two_bytes-IsSendable 4 200 (omega arith) (omega arith) (omega arith))
      (record { pending = refl; idle = client_sends.5 }) client_still_valid
