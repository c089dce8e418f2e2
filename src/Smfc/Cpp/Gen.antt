-- ===== src/Smfc/Cpp/Gen.antt =====
-- The members of `cpp_generator`.
use smf.Prelude.{ℕ, not, List, [], ◌∷◌, ◌++◌, Option}
use smf.Smfc.Printer.{
  Text, codes, set, same, is_empty, Printer, printer, Action, print, print_vars, ◌>>◌, for_each,
  when,
}
use smf.Smfc.Names.{proper_postfix_token, file_name_identifier}
use smf.Smfc.Schema.{Parser, Service, services_of}
use smf.Smfc.Cpp.Service.{print_header_service}
use smf.Smfc.Cpp.Client.{print_header_client, print_std_ostream_services}

abbrev message_header_ext : Text
message_header_ext = codes "_generated.h"

abbrev pub headers : List Text
headers =
    codes "ostream"
    ∷ codes "seastar/core/sstring.hh"
    ∷ codes "smf/rpc_service.h"
    ∷ codes "smf/rpc_client.h"
    ∷ codes "smf/rpc_recv_typed_context.h"
    ∷ codes "smf/rpc_typed_envelope.h"
    ∷ codes "smf/log.h"
    ∷ []

abbrev pub reversed : List Text → List Text
reversed [] = []
reversed (t ∷ ts) = reversed ts ++ t ∷ []

module _ (input_filename : Text) (parser : Parser) where
  unfoldable pub generate_header_prologue : Action
  generate_header_prologue =
      let vars = set "message_header_ext" message_header_ext (
        set "filename_base" parser.base_name (
          set "filename_identifier" (file_name_identifier parser.base_name)
            (set "filename" input_filename []))) in
      print "// Generated by smfc.\n"
      >> print "// Any local changes WILL BE LOST.\n"
      >> print_vars vars "// source: $filename$\n"
      >> for_each parser.included_files (λ file.
        when (not (same file input_filename))
          (print_vars (set "header" file vars) "// transitive fbs: $header$\n"))
      >> print "#pragma once\n"
      >> print_vars vars "#ifndef SMF_$filename_identifier$_INCLUDED\n"
      >> print_vars vars "#define SMF_$filename_identifier$_INCLUDED\n\n"

  unfoldable pub generate_header_prologue_includes : Action
  generate_header_prologue_includes =
      for_each headers (λ hdr. print_vars (set "header" hdr []) "#include <$header$>\n")
      >> print "\n"
      >> print_vars
          (set "message_header_ext" message_header_ext (
            set "filename_base" parser.base_name (
              set "filename_identifier" (file_name_identifier parser.base_name)
                (set "filename" input_filename []))))
          "#include \"$filename_base$$message_header_ext$\"\n\n"

  unfoldable pub generate_header_prologue_namespace : Action
  generate_header_prologue_namespace = when (not (is_empty parser.package_name)) (
      for_each parser.package_parts (λ part. print_vars (set "part" part []) "namespace $part$ {\n")
      >> print "\n")

  unfoldable pub generate_header_epilogue_namespace : Action
  generate_header_epilogue_namespace =
      let vars =
        set "filename_identifier" (file_name_identifier parser.base_name)
          (set "filename" input_filename []) in
      when (not (is_empty parser.package_name)) (
        for_each (reversed parser.package_parts)
          (λ part. print_vars (set "part" part vars) "}  // namespace $part$\n")
        >> print_vars vars "\n")
      >> print_vars vars "\n"

  unfoldable pub generate_header_epilogue : Action
  generate_header_epilogue =
      let vars =
        set "filename_identifier" (file_name_identifier parser.base_name)
          (set "filename" input_filename []) in
      print "\n\n" >> print_vars vars "#endif  // SMF_$filename_identifier$_INCLUDED\n"

unfoldable pub generate_header_prologue_forward_decl : List Service → Action
generate_header_prologue_forward_decl services =
    for_each services (λ srv.
      let vars =
        set "ClientName" (proper_postfix_token srv.raw_service.name (codes "client"))
          (set "Service" srv.raw_service.name []) in
      print_vars vars "class $Service$;\n" >> print_vars vars "class $ClientName$;\n")
    >> print "\n"

unfoldable pub generate_header_prologue_forward_decl_external : List Service → Action
unfolding print_std_ostream_services
generate_header_prologue_forward_decl_external services =
    for_each services print_std_ostream_services >> print "\n"

unfoldable pub generate_header_services : List Service → Action
unfolding print_header_service print_header_client
generate_header_services services =
    for_each services
      (λ srv. print_header_service srv >> print "\n" >> print_header_client srv >> print "\n")

-- What `gen` leaves in the printer, before it writes the file.
unfoldable pub gen : (crc32 : Text → ℕ) (input_filename : Text) → Parser → Option Printer
unfolding generate_header_prologue generate_header_prologue_includes
    generate_header_prologue_namespace generate_header_prologue_forward_decl
    generate_header_epilogue_namespace generate_header_prologue_forward_decl_external
    generate_header_services generate_header_epilogue
gen crc32 input_filename parser =
    let services = services_of crc32 parser.services in
    (generate_header_prologue input_filename parser
        >> generate_header_prologue_includes input_filename parser
        >> generate_header_prologue_namespace input_filename parser
        >> generate_header_prologue_forward_decl services
        >> generate_header_epilogue_namespace input_filename parser
        >> generate_header_prologue_forward_decl_external services
        >> generate_header_prologue_namespace input_filename parser
        >> generate_header_services services
        >> generate_header_epilogue_namespace input_filename parser
        >> generate_header_epilogue input_filename parser)
      (printer b' ' 2)
