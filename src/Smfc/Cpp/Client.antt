-- ===== src/Smfc/Cpp/Client.antt =====
-- The class of a client, and the operator that prints a service, from src/smfc/cpp_generator.cc.
use smf.Prelude.{not, [], ◌∷◌, ◌++◌, ◌==◌, length}
use smf.Smfc.Printer.{
  codes, set, Action, print, print_vars, indent, outdent, ◌>>◌, for_each, enumerate, when,
}
use smf.Smfc.Names.{proper_prefix_token, proper_postfix_token, to_string, join}
use smf.Smfc.Schema.{Method, Service, cpp, input_type_name, output_type_name}

unfoldable pub print_header_client_method : Method → Action
print_header_client_method method =
    let vars = set "OutType" (output_type_name cpp method) (
      set "InType" (input_type_name cpp method) (
        set "ServiceName" method.service_name (
          set "ServiceID" (to_string method.service_id) (
            set "MethodID" (to_string method.method_id) (
              set "MethodName" method.name
                (set "RawMethodName" (proper_prefix_token (codes "raw") method.name) [])))))) in
    print_vars vars
      "inline virtual\nseastar::future<smf::rpc_recv_typed_context<$OutType$>>\n$MethodName$(smf::rpc_typed_envelope<$InType$> x) {\n"
    >> print_vars vars "  return $MethodName$(x.serialize_data());\n"
    >> print "}\n"
    >> print_vars vars
        "inline virtual\nseastar::future<smf::rpc_recv_typed_context<$OutType$>>\n$MethodName$(smf::rpc_envelope e) {\n"
    >> indent
    >> print_vars vars
        "/// ServiceID: $ServiceID$\n/// MethodID:  $MethodID$\ne.set_request_id($ServiceID$ ^ $MethodID$);\nreturn send<$OutType$>(std::move(e));\n"
    >> outdent
    >> print "}\n"

unfoldable pub print_header_client : Service → Action
unfolding print_header_client_method
print_header_client service =
    let vars =
      set "ServiceID" (to_string service.service_id)
        (set "ClientName" (proper_postfix_token service.raw_service.name (codes "client")) []) in
    print_vars vars "class $ClientName$: "
    >> print "public smf::rpc_client {\n"
    >> indent
    >> print "public:\n"
    >> indent
    >> print_vars vars
        "explicit $ClientName$(seastar::ipv4_addr server_addr)\n:smf::rpc_client(std::move(server_addr)) {}\n"
    >> print_vars vars
        "explicit $ClientName$(smf::rpc_client_opts o)\n:smf::rpc_client(std::move(o)) {}\n"
    >> print_vars vars "$ClientName$($ClientName$ &&o) = default;\n"
    >> print_vars vars "virtual ~$ClientName$() = default;\n"
    >> print "virtual const char *name() const final {\n"
    >> indent
    >> print_vars vars "return \"$ClientName$\";\n"
    >> outdent
    >> print "}\n"
    >> for_each service.methods print_header_client_method
    >> outdent
    >> print_vars vars "}; // end of rpc client: $ClientName$\n"
    >> outdent

unfoldable pub print_std_ostream_services : Service → Action
print_std_ostream_services service =
    let fqdn =
      join (codes "::") (service.raw_service.components ++ service.raw_service.name ∷ []) in
    let vars =
      set "ServiceHandleSize" (to_string (length service.methods))
        (set "ServiceID" (to_string service.service_id) (set "FQDNService" fqdn [])) in
    print "namespace std {\n"
    >> indent
    >> print_vars vars "inline ostream& operator<<(ostream &o, const $FQDNService$ &s) {\n"
    >> indent
    >> print_vars vars "o << \"$FQDNService$={total_handles=$ServiceHandleSize$,\";\n"
    >> for_each (enumerate 0 service.methods) (λ at.
      let method = at.1 in
      when (not (at.0 == 0)) (print "o << \", \";\n")
      >> print_vars
          (set "MethodId" (to_string method.method_id) (
            set "OutType" (output_type_name cpp method)
              (set "InType" (input_type_name cpp method) (set "MethodName" method.name vars))))
          "o << \"method={id=$MethodId$, fn=$MethodName$($InType$):$OutType$}\";\n")
    >> print "return o << \"}\";\n"
    >> outdent
    >> print "}\n"
    >> outdent
    >> print "} // namespace std\n"
