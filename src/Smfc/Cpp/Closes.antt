-- ===== src/Smfc/Cpp/Closes.antt =====
-- What the members of `cpp_generator` do to the printer.
use smf.Prelude.{ℕ, ◌≡◌, refl, List, [], ◌∷◌, some, All}
use smf.Smfc.Printer.{Text, codes, escapes, Printer, printer}
use smf.Smfc.Names.{escapes-postfix, escapes-file_name_identifier}
use smf.Smfc.Schema.{Parser, Service, services_of}
use smf.Smfc.Plain.{IsPlain, PlainService, PlainParser, services-Plain, All-append}
use smf.Smfc.Balance.{Moves, Moves-each, Moves-when, ends, call-then, for_each-then, moves}
use smf.Smfc.Cpp.Gen.{
  generate_header_prologue, generate_header_prologue_includes, generate_header_prologue_namespace,
  generate_header_prologue_forward_decl, generate_header_epilogue_namespace,
  generate_header_prologue_forward_decl_external, generate_header_services,
  generate_header_epilogue, gen, headers, reversed,
}
use smf.Smfc.Cpp.Balanced.{Moves-service, Moves-client, Moves-std_ostream}

reversed-IsPlain : (ts : List Text) → All IsPlain ts → All IsPlain (reversed ts)
reversed-IsPlain [] a = tt
reversed-IsPlain (t ∷ ts) a = All-append (reversed ts) _ (reversed-IsPlain ts a.1) (a.0, tt)

headers-IsPlain : All IsPlain headers
unfolding escapes
headers-IsPlain = (refl, (refl, (refl, (refl, (refl, (refl, (refl, tt)))))))

ext-IsPlain : IsPlain (codes "_generated.h")
unfolding escapes
ext-IsPlain = refl

client-IsPlain : IsPlain (codes "client")
unfolding escapes
client-IsPlain = refl

name_of : (s : Service) → PlainService s → IsPlain s.raw_service.name
name_of s h = h.name

itself : (t : Text) → IsPlain t → IsPlain t
itself t h = h

ruleset plain = (
  moves, itself, ext-IsPlain, client-IsPlain, escapes-postfix, escapes-file_name_identifier,
  headers-IsPlain, reversed-IsPlain, name_of, call-then, for_each-then, Moves-each, Moves-when,
  Moves-service, Moves-client, Moves-std_ostream,
)

module _ (i : ℕ) (file : Text) (p : Parser) (e : IsPlain file) (h : PlainParser p) where
  Moves-prologue : Moves i i (generate_header_prologue file p)
  unfolding generate_header_prologue
  Moves-prologue = search (plain, h.base_name, h.included_files) depth 40 fits 4000

  Moves-includes : Moves i i (generate_header_prologue_includes file p)
  unfolding generate_header_prologue_includes
  Moves-includes = search (plain, h.base_name) depth 40 fits 4000

  Moves-namespace : Moves i i (generate_header_prologue_namespace file p)
  unfolding generate_header_prologue_namespace
  Moves-namespace = search (plain, h.package_parts) depth 40 fits 4000

  Moves-epilogue_namespace : Moves i i (generate_header_epilogue_namespace file p)
  unfolding generate_header_epilogue_namespace
  Moves-epilogue_namespace = search (plain, h.package_parts) depth 40 fits 4000

  Moves-epilogue : Moves i i (generate_header_epilogue file p)
  unfolding generate_header_epilogue
  Moves-epilogue = search (plain) depth 40 fits 4000

module _ (i : ℕ) (ss : List Service) (h : All PlainService ss) where
  Moves-forward_decl : Moves i i (generate_header_prologue_forward_decl ss)
  unfolding generate_header_prologue_forward_decl
  Moves-forward_decl = search (plain) depth 40 fits 4000

  Moves-external : Moves i i (generate_header_prologue_forward_decl_external ss)
  unfolding generate_header_prologue_forward_decl_external
  Moves-external = search (plain) depth 40 fits 4000

  Moves-services : Moves i i (generate_header_services ss)
  unfolding generate_header_services
  Moves-services = search (plain) depth 40 fits 4000

module _ (crc32 : Text → ℕ) (file : Text) (p : Parser) where
  -- For a schema and an input file name that hold no escape character, whatever crc32 computes, the
  -- C++ generator returns, and every indentation that it opens is closed.
  pub gen_cpp-closes :
      IsPlain file → PlainParser p → (q : Printer) × (gen crc32 file p ≡ some q) × (q.indents ≡ 0)
  unfolding gen
  gen_cpp-closes e h =
      let ss = services_of crc32 p.services in
      let hs = services-Plain crc32 p.services h.services in
      ends 0 0 _ (printer b' ' 2)
        (call-then 0 0 _ _ (Moves-prologue 0 file p e h) (
          call-then 0 0 _ _ (Moves-includes 0 file p e h) (
            call-then 0 0 _ _ (Moves-namespace 0 file p e h) (
              call-then 0 0 _ _ (Moves-forward_decl 0 ss hs) (
                call-then 0 0 _ _ (Moves-epilogue_namespace 0 file p e h) (
                  call-then 0 0 _ _ (Moves-external 0 ss hs) (
                    call-then 0 0 _ _ (Moves-namespace 0 file p e h) (
                      call-then 0 0 _ _ (Moves-services 0 ss hs) (
                        call-then 0 0 _ _ (Moves-epilogue_namespace 0 file p e h)
                          (Moves-epilogue 0 file p e h))))))))))
        refl
