-- ===== src/Smfc/Plain.antt =====
-- Schemas none of whose names holds the printer's escape character.
use smf.Prelude.{ℕ, ◌≡◌, refl, true, false, List, [], ◌∷◌, ◌++◌, map, All, if◌then◌else◌}
use smf.Smfc.Printer.{Text, codes, escapes}
use smf.Smfc.Names.{join, escapes_both}
use smf.Smfc.Schema.{
  StructDef, RpcCall, ServiceDef, Parser, Language, cpp, go, python, Method, Service, type,
  smf_method, smf_service, services_of, input_type_name, output_type_name,
}

abbrev pub IsPlain : Text → Type 0
IsPlain t = escapes t ≡ 0

pub record PlainStruct (sd : StructDef) : Type 0 where
  pub name : IsPlain sd.name
  pub components : All IsPlain sd.components

pub record PlainCall (c : RpcCall) : Type 0 where
  pub name : IsPlain c.name
  pub request : PlainStruct c.request
  pub response : PlainStruct c.response

pub record PlainDef (s : ServiceDef) : Type 0 where
  pub name : IsPlain s.name
  pub components : All IsPlain s.components
  pub calls : All PlainCall s.calls

pub record PlainMethod (m : Method) : Type 0 where
  pub name : IsPlain m.name
  pub service_name : IsPlain m.service_name
  pub request : PlainStruct m.request
  pub response : PlainStruct m.response

pub record PlainService (s : Service) : Type 0 where
  pub name : IsPlain s.raw_service.name
  pub components : All IsPlain s.raw_service.components
  pub methods : All PlainMethod s.methods

pub record PlainParser (p : Parser) : Type 0 where
  pub services : All PlainDef p.services
  pub package_parts : All IsPlain p.package_parts
  pub included_files : All IsPlain p.included_files
  pub base_name : IsPlain p.base_name

pub All-append : (ts us : List Text) → All IsPlain ts → All IsPlain us → All IsPlain (ts ++ us)
All-append [] us a b = b
All-append (t ∷ ts) us a b = (a.0, All-append ts us a.1 b)

pub join-IsPlain :
    (separator : Text) (ts : List Text)
    → IsPlain separator
    → All IsPlain ts
    → IsPlain (join separator ts)
unfolding join escapes
join-IsPlain separator [] e a = refl
join-IsPlain separator (t ∷ []) e a = a.0
join-IsPlain separator (t ∷ u ∷ ts) e a =
    escapes_both (t ++ separator) (join separator (u ∷ ts)) (escapes_both t separator a.0 e)
      (join-IsPlain separator (u ∷ ts) e a.1)

type-IsPlain : (sd : StructDef) (l : Language) → PlainStruct sd → IsPlain (type sd l)
unfolding type escapes
type-IsPlain sd cpp h =
    join-IsPlain (codes "::") _ refl (All-append sd.components _ h.components (h.name, tt))
type-IsPlain sd go h = h.name
type-IsPlain sd python h =
    join-IsPlain (codes ".") _ refl (All-append sd.components _ h.components (h.name, (h.name, tt)))

pub input-IsPlain : (l : Language) (m : Method) → PlainMethod m → IsPlain (input_type_name l m)
unfolding input_type_name
input-IsPlain l m h = type-IsPlain m.request l h.request

pub output-IsPlain : (l : Language) (m : Method) → PlainMethod m → IsPlain (output_type_name l m)
unfolding output_type_name
output-IsPlain l m h = type-IsPlain m.response l h.response

module _ (crc32 : Text → ℕ) where
  methods-Plain :
      (name : Text) (id : ℕ) (calls : List RpcCall)
      → IsPlain name
      → All PlainCall calls
      → All PlainMethod (map (λ c. smf_method crc32 c name id) calls)
  unfolding smf_method
  methods-Plain name id [] e a = tt
  methods-Plain name id (c ∷ calls) e a = (
    record { name = a.0.name; service_name = e; request = a.0.request; response = a.0.response },
    methods-Plain name id calls e a.1,
  )

  service-Plain : (s : ServiceDef) → PlainDef s → PlainService (smf_service crc32 s)
  unfolding smf_service
  service-Plain s h = record {
    name = h.name;
    components = h.components;
    methods = methods-Plain s.name (crc32 s.name) s.calls h.name h.calls;
  }

  pub services-Plain :
      (ss : List ServiceDef) → All PlainDef ss → All PlainService (services_of crc32 ss)
  unfolding services_of
  services-Plain [] a = tt
  services-Plain (s ∷ ss) a =
      elim s.generated
        as (λ b.
          All PlainService
            (if b then services_of crc32 ss else smf_service crc32 s ∷ services_of crc32 ss)) [
              | true ↦ services-Plain ss a.1
              | false ↦ (service-Plain s a.0, services-Plain ss a.1)
            ]
