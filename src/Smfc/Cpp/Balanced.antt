-- ===== src/Smfc/Cpp/Balanced.antt =====
-- What src/smfc/cpp_generator.cc does to the printer.
use smf.Prelude.{ℕ, refl, [], ◌∷◌, ◌++◌, All}
use smf.Smfc.Printer.{codes, escapes, enumerate}
use smf.Smfc.Names.{join, escapes-to_string, escapes-prefix, escapes-postfix}
use smf.Smfc.Schema.{Method, Service}
use smf.Smfc.Plain.{
  IsPlain, PlainMethod, PlainService, input-IsPlain, output-IsPlain, join-IsPlain, All-append,
}
use smf.Smfc.Balance.{Moves, call-then, for_each-then, All-enumerate, AtEach, moves}
use smf.Smfc.Cpp.Service.{
  print_header_service_ctor_dtor, print_header_service_handle_request_id,
  print_header_service_handles, print_header_service_method, print_header_service,
}
use smf.Smfc.Cpp.Client.{
  print_header_client_method, print_header_client, print_std_ostream_services,
}

raw-IsPlain : IsPlain (codes "raw")
unfolding escapes
raw-IsPlain = refl

client-IsPlain : IsPlain (codes "client")
unfolding escapes
client-IsPlain = refl

fqdn-IsPlain :
    (s : Service)
    → PlainService s
    → IsPlain (join (codes "::") (s.raw_service.components ++ s.raw_service.name ∷ []))
unfolding escapes
fqdn-IsPlain s h =
    join-IsPlain (codes "::") _ refl
      (All-append s.raw_service.components _ h.components (h.name, tt))

methods_at : (s : Service) → PlainService s → All (AtEach PlainMethod) (enumerate 0 s.methods)
methods_at s h = All-enumerate PlainMethod 0 s.methods h.methods

name_of : (m : Method) → PlainMethod m → IsPlain m.name
name_of m h = h.name

service_name_of : (m : Method) → PlainMethod m → IsPlain m.service_name
service_name_of m h = h.service_name

ruleset plain = (
  moves, raw-IsPlain, client-IsPlain, fqdn-IsPlain, escapes-prefix, escapes-postfix,
  escapes-to_string, input-IsPlain, output-IsPlain, name_of, service_name_of,
)

Moves-ctor_dtor :
    (i : ℕ) (s : Service) → PlainService s → Moves i i (print_header_service_ctor_dtor s)
unfolding print_header_service_ctor_dtor
Moves-ctor_dtor i s h = search (plain, for_each-then, methods_at, h.name) depth 40 fits 4000

Moves-handle_request_id :
    (i : ℕ) (s : Service) → PlainService s → Moves i i (print_header_service_handle_request_id s)
unfolding print_header_service_handle_request_id
Moves-handle_request_id i s h = search (plain, for_each-then, methods_at) depth 40 fits 4000

Moves-handles : (i : ℕ) (s : Service) → Moves i i (print_header_service_handles s)
unfolding print_header_service_handles
Moves-handles i s = search (plain) depth 40 fits 4000

Moves-service_method :
    (i : ℕ) (m : Method) → PlainMethod m → Moves i i (print_header_service_method m)
unfolding print_header_service_method
Moves-service_method i m h = search (plain) depth 40 fits 4000

pub Moves-service : (i : ℕ) (s : Service) → PlainService s → Moves i i (print_header_service s)
unfolding print_header_service
Moves-service i s h =
    search
      (
        plain, Moves-ctor_dtor, Moves-handle_request_id, Moves-handles, Moves-service_method,
        for_each-then, call-then, h.name, h.methods,
      )
      depth 60 fits 4000

Moves-client_method :
    (i : ℕ) (m : Method) → PlainMethod m → Moves i i (print_header_client_method m)
unfolding print_header_client_method
Moves-client_method i m h = search (plain) depth 40 fits 4000

pub Moves-client : (i : ℕ) (s : Service) → PlainService s → Moves i i (print_header_client s)
unfolding print_header_client
Moves-client i s h =
    search (plain, Moves-client_method, for_each-then, h.name, h.methods) depth 40 fits 4000

pub Moves-std_ostream :
    (i : ℕ) (s : Service) → PlainService s → Moves i i (print_std_ostream_services s)
unfolding print_std_ostream_services
Moves-std_ostream i s h = search (plain, for_each-then, methods_at) depth 40 fits 4000
