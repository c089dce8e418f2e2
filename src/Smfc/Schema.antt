-- ===== src/Smfc/Schema.antt =====
-- src/smfc/smf_method.h, src/smfc/smf_service.h and the base class of src/smfc/generator.h, over
-- what the flatbuffers parser gives.
use smf.Prelude.{ℕ, Bool, List, [], ◌∷◌, ◌++◌, map, if◌then◌else◌}
use smf.Smfc.Printer.{Text, codes}
use smf.Smfc.Names.{join}

-- The parser's structures, in the fields that smfc reads.
pub record StructDef : Type 0 where
  pub name : Text
  pub components : List Text

pub record RpcCall : Type 0 where
  pub name : Text
  pub request : StructDef
  pub response : StructDef

pub record ServiceDef : Type 0 where
  pub name : Text
  pub components : List Text
  pub calls : List RpcCall
  pub generated : Bool

-- `package_name` is what `GetFullyQualifiedName("")` gives, `package_parts` the namespace's components,
-- `included_files` the keys of the map in their order, and `base_name` the input's file name
-- without its path and extension.
pub record Parser : Type 0 where
  pub services : List ServiceDef
  pub package_name : Text
  pub package_parts : List Text
  pub included_files : List Text
  pub base_name : Text

-- The languages for which `type` does not throw.
pub data Language : Type 0 where
  cpp go python : Language

pub record Method : Type 0 where
  pub name : Text
  pub service_name : Text
  pub service_id : ℕ
  pub method_id : ℕ
  pub request : StructDef
  pub response : StructDef

pub record Service : Type 0 where
  pub service_id : ℕ
  pub methods : List Method
  pub raw_service : ServiceDef

unfoldable pub type : StructDef → Language → Text
unfolding join
type sd cpp = join (codes "::") (sd.components ++ sd.name ∷ [])
type sd go = sd.name
type sd python = join (codes ".") (sd.components ++ sd.name ∷ sd.name ∷ [])

unfoldable pub input_type_name : Language → Method → Text
unfolding type
input_type_name l m = type m.request l

unfoldable pub output_type_name : Language → Method → Text
unfolding type
output_type_name l m = type m.response l

module _ (crc32 : Text → ℕ) where
  unfoldable pub smf_method : RpcCall → (service_name : Text) (service_id : ℕ) → Method
  unfolding type
  smf_method call service_name service_id =
      let id =
        call.name ++ codes ":" ++ type call.request cpp ++ codes ":" ++ type call.response cpp in
      record {
        name = call.name;
        service_name = service_name;
        service_id = service_id;
        method_id = crc32 id;
        request = call.request;
        response = call.response;
      }

  unfoldable pub smf_service : ServiceDef → Service
  unfolding smf_method
  smf_service service =
      let id = crc32 service.name in
      record {
        service_id = id;
        methods = map (λ call. smf_method call service.name id) service.calls;
        raw_service = service;
      }

  -- The services of included files are marked as generated, and are left out.
  unfoldable pub services_of : List ServiceDef → List Service
  unfolding smf_service
  services_of [] = []
  services_of (s ∷ ss) =
      let rest = services_of ss in if s.generated then rest else smf_service s ∷ rest
