-- ===== src/Smfc/Go.antt =====
-- src/smfc/go_generator.cc and src/smfc/go_generator.h.
pub mod Balanced
use smf.Prelude.{Bool, ℕ, ◌+◌, List, [], ◌∷◌, ◌++◌, Option, none, some}
use smf.Smfc.Printer.{
  Text, codes, Vars, set, Printer, printer, Action, print, print_vars, indent, outdent, ◌>>◌, skip,
  for_each, with_directories,
}
use smf.Smfc.Names.{public_name, to_string, join}
use smf.Smfc.Schema.{Parser, Method, Service, go, input_type_name, output_type_name, services_of}

unfoldable pub print_server_method : Method → Action
print_server_method method =
    let vars = set "InType" (input_type_name go method) (
      set "MethodName" (public_name method.name) (
        set "RawMethodName" (codes "Raw" ++ public_name method.name) (
          set "MethodID" (to_string method.method_id) (
            set "ServiceName" (public_name method.service_name ++ codes "Service")
              (set "InterfaceName" (public_name method.service_name) []))))) in
    print_vars vars
      "func (s *$ServiceName$) $RawMethodName$(ctx context.Context, req []byte) ([]byte, error) {\n"
    >> indent
    >> print_vars vars "return s.$InterfaceName$.$MethodName$(ctx, GetRootAs$InType$(req, 0))\n"
    >> outdent
    >> print "}\n\n"

-- The variables of `print_server` and of `print_server_jump_table`.
server_vars : Service → Vars
server_vars service = set "ServiceID" (to_string service.service_id) (
    set "ServiceName" (public_name service.raw_service.name ++ codes "Service")
      (set "InterfaceName" (public_name service.raw_service.name) []))

unfoldable pub print_server_jump_table : Service → Action
unfolding server_vars
print_server_jump_table service =
    let vars = server_vars service in
    print_vars vars "func (s *$ServiceName$) MethodHandle(id uint32) smf.RawHandle {\n"
    >> indent
    >> print "switch id {\n"
    >> for_each service.methods (λ m.
      let vars' =
        set "RawMethodName" (codes "Raw" ++ public_name m.name)
          (set "MethodID" (to_string m.method_id) vars) in
      print_vars vars' "case $ServiceID$ ^ $MethodID$:\n"
      >> indent
      >> print_vars vars' "return s.$RawMethodName$\n"
      >> outdent)
    >> print "default:\n"
    >> indent
    >> print "return nil\n"
    >> outdent
    >> print "}\n"
    >> outdent
    >> print "}\n\n"

unfoldable pub print_server : Service → Action
unfolding server_vars print_server_jump_table print_server_method
print_server service =
    let vars = server_vars service in
    print_vars vars "\n// $InterfaceName$ - $InterfaceName$ Server interface\n"
    >> print_vars vars "type $InterfaceName$ interface {\n"
    >> indent
    >> for_each service.methods (λ m.
      print_vars (set "InType" (input_type_name go m) (set "MethodName" (public_name m.name) vars))
        "$MethodName$(context.Context, *$InType$) ([]byte, error)\n")
    >> outdent
    >> print "}\n\n"
    >> print_vars vars "type $ServiceName$ struct {\n"
    >> indent
    >> print_vars vars "$InterfaceName$\n"
    >> outdent
    >> print "}\n\n"
    >> print_vars vars "func New$ServiceName$(s $InterfaceName$) *$ServiceName$ {\n"
    >> indent
    >> print_vars vars "return &$ServiceName${$InterfaceName$: s}\n"
    >> outdent
    >> print "}\n\n"
    >> print_vars vars "func (s *$ServiceName$) ServiceName() string {\n"
    >> indent
    >> print_vars vars "return \"$InterfaceName$\"\n"
    >> outdent
    >> print "}\n\n"
    >> print_vars vars "func (s *$ServiceName$) ServiceID() uint32 {\n"
    >> indent
    >> print_vars vars "return $ServiceID$\n"
    >> outdent
    >> print "}\n\n"
    >> print_server_jump_table service
    >> for_each service.methods print_server_method

unfoldable pub print_client_method : Method → Action
print_client_method method =
    let vars = set "OutputType" (output_type_name go method) (
      set "MethodName" (public_name method.name) (
        set "RawMethodName" (codes "Raw" ++ public_name method.name) (
          set "ServiceID" (to_string method.service_id) (
            set "MethodID" (to_string method.method_id) (
              set "ClientName" (public_name method.service_name ++ codes "Client")
                (set "InterfaceName" (public_name method.service_name) [])))))) in
    print_vars vars
      "func (s *$ClientName$) $MethodName$(ctx context.Context, req []byte) (*$OutputType$, error) {\n"
    >> indent
    >> print_vars vars "res, err := s.$RawMethodName$(ctx, req)\nif err != nil {\n"
    >> indent
    >> print "return nil, err\n"
    >> outdent
    >> print "}\n"
    >> print_vars vars "return GetRootAs$OutputType$(res, 0), nil\n"
    >> outdent
    >> print "}\n\n"
    >> print_vars vars
        "func (s *$ClientName$) $RawMethodName$(ctx context.Context, req []byte) ([]byte, error) {\n"
    >> indent
    >> print_vars vars "return s.Client.SendRecv(req, $ServiceID$^$MethodID$)\n"
    >> outdent
    >> print "}\n"

unfoldable pub print_client : Service → Action
unfolding print_client_method
print_client service =
    let vars = set "ServiceID" (to_string service.service_id) (
      set "ClientName" (public_name service.raw_service.name ++ codes "Client")
        (set "InterfaceName" (public_name service.raw_service.name) [])) in
    print "// Client\n"
    >> print_vars vars "type $ClientName$ struct {\n"
    >> indent
    >> print_vars vars "*smf.Client\n"
    >> outdent
    >> print "}\n\n"
    >> print_vars vars "func New$ClientName$(c *smf.Client) *$ClientName$ {\n"
    >> indent
    >> print_vars vars "return &$ClientName${Client: c}\n"
    >> outdent
    >> print "}\n\n"
    >> for_each service.methods print_client_method

-- `parts.back()`; without a part it is undefined behaviour.
abbrev back : List Text → Option Text
back [] = none
back (t ∷ []) = some t
back (t ∷ u ∷ ts) = back (u ∷ ts)

undefined : Action
undefined p = none

prologue_of : (input_filename : Text) → Option Text → Action
unfolding undefined
prologue_of input_filename none = undefined
prologue_of input_filename (some package_name) =
    let vars = set "package" package_name (set "filename" input_filename []) in
    print "// Generated by smfc.\n"
    >> print "// Any local changes WILL BE LOST.\n"
    >> print_vars vars "// source: $filename$\n"
    >> print_vars vars "package $package$\n\n"

unfoldable pub generate_header_prologue : (input_filename : Text) → Parser → Action
unfolding back prologue_of
generate_header_prologue input_filename parser =
    prologue_of input_filename (back parser.package_parts)

unfoldable pub generate_header_includes : Action
generate_header_includes =
    print "import (\n"
    >> indent
    >> print "\"context\"\n\"github.com/smfrpc/smf-go/src/smf\"\n"
    >> outdent
    >> print ")\n"

unfoldable pub generate_header_services : List Service → Action
unfolding print_server print_client
generate_header_services services = for_each services print_server >> for_each services print_client

-- What `gen` leaves in the printer, before it writes the file; `none` where it does not come so far.
-- `create_directories` is that of boost::filesystem, false where it throws, as it does for an empty
-- path.
unfoldable pub gen :
    (create_directories : Text → Bool) (crc32 : Text → ℕ) (input_filename : Text)
    → Parser
    → Option Printer
unfolding with_directories generate_header_prologue generate_header_includes
    generate_header_services
gen create_directories crc32 input_filename parser =
    (generate_header_prologue input_filename parser
        >> generate_header_includes
        >> generate_header_services (services_of crc32 parser.services)
        >> with_directories (create_directories (join (codes "/") parser.package_parts)))
      (printer b'\t' 1)
