-- ===== src/Smfc/Go/Balanced.antt =====
-- What src/smfc/go_generator.cc does to the printer.
use smf.Prelude.{ℕ, Bool, true, ◌≡◌, refl, List, [], ◌∷◌, ◌++◌, some, All}
use smf.Smfc.Printer.{Text, codes, escapes, Printer, printer}
use smf.Smfc.Printer.Laws.{Clean}
use smf.Smfc.Names.{join, escapes-public_name, escapes-to_string, escapes_both}
use smf.Smfc.Schema.{Parser, Method, Service}
use smf.Smfc.Plain.{
  IsPlain, PlainMethod, PlainService, PlainParser, input-IsPlain, output-IsPlain, services-Plain,
}
use smf.Smfc.Balance.{
  Moves-with_directories, Moves, Moves-each, ends, call-then, for_each-then, moves,
}
use smf.Smfc.Go.{
  server_vars, print_server_method, print_server_jump_table, print_server, print_client_method,
  print_client, back, prologue_of, generate_header_prologue, generate_header_includes,
  generate_header_services, gen,
}

service-suffix : (s : Text) → IsPlain s → IsPlain (s ++ codes "Service")
unfolding escapes
service-suffix s e = escapes_both s (codes "Service") e refl

client-suffix : (s : Text) → IsPlain s → IsPlain (s ++ codes "Client")
unfolding escapes
client-suffix s e = escapes_both s (codes "Client") e refl

raw-prefix : (s : Text) → IsPlain s → IsPlain (codes "Raw" ++ s)
unfolding escapes
raw-prefix s e = escapes_both (codes "Raw") s refl e

ruleset plain = (
  moves, service-suffix, client-suffix, raw-prefix, escapes-public_name, escapes-to_string,
  input-IsPlain, output-IsPlain,
)

Moves-server_method : (i : ℕ) (m : Method) → PlainMethod m → Moves i i (print_server_method m)
unfolding print_server_method
Moves-server_method i m h = search (plain, h.name, h.service_name) depth 30

Clean-server_vars : (s : Service) → PlainService s → Clean (server_vars s)
unfolding server_vars
Clean-server_vars s h = search (plain, h.name) depth 30

Moves-jump_table : (i : ℕ) (s : Service) → PlainService s → Moves i i (print_server_jump_table s)
unfolding print_server_jump_table
Moves-jump_table i s h =
    search (plain, for_each-then, Clean-server_vars, h.methods, PlainMethod.name) depth 30

Moves-server : (i : ℕ) (s : Service) → PlainService s → Moves i i (print_server s)
unfolding print_server
Moves-server i s h =
    search
      (
        plain, for_each-then, call-then, Moves-each, Moves-jump_table, Moves-server_method,
        Clean-server_vars, h.methods, PlainMethod.name,
      )
      depth 60 fits 4000

Moves-client_method : (i : ℕ) (m : Method) → PlainMethod m → Moves i i (print_client_method m)
unfolding print_client_method
Moves-client_method i m h = search (plain, h.name, h.service_name) depth 30

Moves-client : (i : ℕ) (s : Service) → PlainService s → Moves i i (print_client s)
unfolding print_client
Moves-client i s h =
    search (plain, for_each-then, Moves-each, Moves-client_method, h.methods, h.name) depth 30

back-IsPlain :
    (t : Text) (ts : List Text)
    → All IsPlain (t ∷ ts)
    → (u : Text) × (back (t ∷ ts) ≡ some u) × IsPlain u
unfolding back
back-IsPlain t [] a = (t, refl, a.0)
back-IsPlain t (u ∷ ts) a = back-IsPlain u ts a.1

Moves-prologue_of :
    (i : ℕ) (file package_name : Text)
    → IsPlain file
    → IsPlain package_name
    → Moves i i (prologue_of file (some package_name))
unfolding prologue_of
Moves-prologue_of i file package_name e h = search (plain, e, h) depth 30

Moves-prologue :
    (i : ℕ) (file : Text) (p : Parser)
    → IsPlain file
    → PlainParser p
    → (t : Text) (ts : List Text) → p.package_parts ≡ t ∷ ts
    → Moves i i (generate_header_prologue file p)
unfolding generate_header_prologue
Moves-prologue i file p e h t ts named =
    let (u, last, clean) = back-IsPlain t ts (rw named at h.package_parts) in
    rw (named, last) (Moves-prologue_of i file u e clean)

Moves-includes : (i : ℕ) → Moves i i generate_header_includes
unfolding generate_header_includes
Moves-includes i = search (plain) depth 30

Moves-services :
    (i : ℕ) (ss : List Service) → All PlainService ss → Moves i i (generate_header_services ss)
unfolding generate_header_services
Moves-services i ss h = search (for_each-then, Moves-each, Moves-server, Moves-client) depth 30

-- For a schema with a namespace, and an input file name, that hold no escape character, whatever
-- crc32 computes, if the directories of the namespace can be made, the Go generator returns, and
-- every indentation that it opens is closed.
pub gen_go-closes :
    (create_directories : Text → Bool) (crc32 : Text → ℕ) (file : Text) (p : Parser) (t : Text)
    (ts : List Text)
    → IsPlain file
    → PlainParser p
    → p.package_parts ≡ t ∷ ts
    → create_directories (join (codes "/") p.package_parts) ≡ true
    → (q : Printer) × (gen create_directories crc32 file p ≡ some q) × (q.indents ≡ 0)
unfolding gen
gen_go-closes create_directories crc32 file p t ts e h named created =
    let body = call-then 0 0 _ _ (Moves-prologue 0 file p e h t ts named) (
      call-then 0 0 _ _ (Moves-includes 0) (
        call-then 0 0 _ _ (Moves-services 0 _ (services-Plain crc32 p.services h.services))
          (Moves-with_directories 0 _ created))) in
    let run = ends 0 0 _ (printer b'\t' 1) body refl in run
