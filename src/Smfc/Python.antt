-- ===== src/Smfc/Python.antt =====
-- src/smfc/python_generator.cc and src/smfc/python_generator.h.
pub mod Closes
pub mod Imports
use smf.Prelude.{
  ℕ, ◌+◌, Bool, true, false, ◌||◌, ◌&&◌, List, [], ◌∷◌, ◌++◌, Option, none, some, ltb, ◌==◌,
  bit_xor, if◌then◌else◌, length, All,
}
use smf.Smfc.Printer.{
  Text, codes, Vars, set, same, Printer, printer, Action, print, print_c_str, print_vars, indent,
  outdent, ◌>>◌, for_each, enumerate, when, with_directories,
}
use smf.Smfc.Names.{public_name, to_string, join}
use smf.Smfc.Schema.{Parser, Method, Service, python, output_type_name, services_of}

unfoldable pub print_client_method : Method → Action
print_client_method method =
    let vars = set "RequestID" (to_string (bit_xor method.service_id method.method_id)) (
      set "OutType" (output_type_name python method) (
        set "ServiceID" (to_string method.service_id) (
          set "MethodID" (to_string method.method_id)
            (set "MethodName" (public_name method.name) [])))) in
    print_vars vars "async def $MethodName$(self, x):\n"
    >> indent
    >> print_vars vars "# request id = $ServiceID$ ^ $MethodID$\n"
    >> print_vars vars "buf, status = await self._conn.call(x, $RequestID$)\n"
    >> print_vars vars "return $OutType$.GetRootAsPutResponse(buf, 0), status\n"
    >> outdent

unfoldable pub print_client : Service → Action
unfolding print_client_method
print_client service =
    let interface = public_name service.raw_service.name in
    let vars =
      set "ServiceID" (to_string service.service_id)
        (set "ClientName" (interface ++ codes "Client") (set "InterfaceName" interface [])) in
    print_vars vars "class $ClientName$:\n"
    >> indent
    >> print "def __init__(self, conn):\n"
    >> indent
    >> print "self._conn = conn\n\n"
    >> outdent
    >> outdent
    >> for_each (enumerate 0 service.methods) (λ at.
      indent
      >> print_client_method at.1
      >> outdent
      >> when (ltb (at.0 + 1) (length service.methods)) (print "\n"))

unfoldable pub generate_header_prologue : (input_filename : Text) → Action
generate_header_prologue input_filename =
    print "# Generated by smfc.\n"
    >> print "# Any local changes WILL BE LOST.\n"
    >> print_vars (set "filename" input_filename []) "# source: $filename$\n\n"

-- The text before the last point; `none` where there is none, and the program ends.
unfoldable pub before_point : Text → Option Text
before_point [] = none
before_point (c ∷ s) = elim (before_point s) [
  | some t ↦ some (c ∷ t)
  | none ↦ if c == b'.' then some [] else none
]

unfoldable pub less : Text → Text → Bool
less s [] = false
less [] (y ∷ ys) = true
less (x ∷ xs) (y ∷ ys) = ltb x y || (x == y && less xs ys)

-- `std::set::insert`: the elements ascend, and a text that is there stays alone.
unfoldable pub insert : Text → List Text → List Text
unfolding less same
insert s [] = s ∷ []
insert s (t ∷ ts) =
    let rest = insert s ts in if same s t then t ∷ ts else if less s t then s ∷ t ∷ ts else t ∷ rest

-- The imports of the methods, added to `imports`.
unfoldable pub imports_of : List Method → List Text → Option (List Text)
unfolding before_point insert
imports_of [] imports = some imports
imports_of (m ∷ ms) imports = elim (before_point (output_type_name python m)) [
  | none ↦ none
  | some t ↦ imports_of ms (insert t imports)
]

unfoldable pub all_imports : List Service → List Text → Option (List Text)
unfolding imports_of
all_imports [] imports = some imports
all_imports (s ∷ ss) imports = elim (imports_of s.methods imports) [
  | none ↦ none
  | some imports' ↦ all_imports ss imports'
]

print_import : Text → Action
print_import text = print "import " >> print_c_str text >> print "\n"

print_imports : Option (List Text) → Action
unfolding print_import
print_imports none p = none
print_imports (some imports) p = for_each imports print_import p

unfoldable pub generate_header_includes : List Service → Action
unfolding all_imports print_imports
generate_header_includes services = print_imports (all_imports services []) >> print "\n"

unfoldable pub generate_header_services : List Service → Action
unfolding print_client
generate_header_services services = for_each services print_client

-- What `gen` leaves in the printer, before it writes the file; `none` where it does not come so far.
-- `create_directories` is that of boost::filesystem, false where it throws, as it does for an empty
-- path.
unfoldable pub gen :
    (create_directories : Text → Bool) (crc32 : Text → ℕ) (input_filename : Text)
    → Parser
    → Option Printer
unfolding with_directories generate_header_prologue generate_header_includes
    generate_header_services
gen create_directories crc32 input_filename parser =
    let services = services_of crc32 parser.services in
    (generate_header_prologue input_filename
        >> generate_header_includes services
        >> generate_header_services services
        >> with_directories (create_directories (join (codes "/") parser.package_parts)))
      (printer b' ' 4)
