-- ===== src/Smfc/Cpp/Service.antt =====
-- The class of a service that src/smfc/cpp_generator.cc prints.
use smf.Prelude.{◌+◌, [], ltb, length, if◌then◌else◌}
use smf.Smfc.Printer.{
  codes, set, Action, print, print_vars, indent, outdent, ◌>>◌, for_each, enumerate,
}
use smf.Smfc.Names.{proper_prefix_token, to_string}
use smf.Smfc.Schema.{Method, Service, cpp, input_type_name, output_type_name}

unfoldable pub print_header_service_ctor_dtor : Service → Action
print_header_service_ctor_dtor service =
    let vars = set "Service" service.raw_service.name [] in
    let max = length service.methods in
    print_vars vars "virtual ~$Service$() = default;\n"
    >> print_vars vars "$Service$() : handles_{{\n"
    >> indent
    >> for_each (enumerate 0 service.methods) (λ at.
      let method = at.1 in
      let vars' = set "MethodId" (to_string method.method_id) (
        set "OutType" (output_type_name cpp method) (
          set "InType" (input_type_name cpp method) (
            set "RawMethodName" (proper_prefix_token (codes "raw") method.name)
              (set "MethodName" method.name vars)))) in
      print "smf::rpc_service_method_handle(\n"
      >> indent
      >> print "[this](smf::rpc_recv_context c) -> seastar::future<smf::rpc_envelope> {\n"
      >> indent
      >> print "// Session accounting\nauto session_id = c.session();\n"
      >> print_vars vars'
          "return $RawMethodName$(std::move(c)).then([session_id](smf::rpc_envelope e) {\n"
      >> indent
      >> print
          "e.letter.header.mutate_session(session_id);\nreturn seastar::make_ready_future<smf::rpc_envelope>(std::move(e));\n"
      >> outdent
      >> print (if ltb (at.0 + 1) max then "});}),\n" else "});})\n")
      >> outdent
      >> outdent)
    >> outdent
    >> print "}} {}\n"

unfoldable pub print_header_service_handle_request_id : Service → Action
print_header_service_handle_request_id service =
    print
      "virtual smf::rpc_service_method_handle *\nmethod_for_request_id(uint32_t idx) override final {\n"
    >> indent
    >> print "switch(idx){\n"
    >> indent
    >> for_each (enumerate 0 service.methods) (λ at.
      print_vars
        (set "VectorIdx" (to_string at.0) (
          set "MethodId" (to_string at.1.method_id)
            (set "ServiceID" (to_string at.1.service_id) [])))
        "case ($ServiceID$ ^ $MethodId$): return &handles_[$VectorIdx$];\n")
    >> print "default: return nullptr;\n"
    >> outdent
    >> print "}\n"
    >> outdent
    >> print "}\n"

unfoldable pub print_header_service_handles : Service → Action
print_header_service_handles service =
    print_vars (set "ServiceHandleSize" (to_string (length service.methods)) [])
      "virtual const std::array<smf::rpc_service_method_handle, $ServiceHandleSize$> &\nmethods() final {\n"
    >> indent
    >> print "return handles_;\n"
    >> outdent
    >> print "}\n"

unfoldable pub print_header_service_method : Method → Action
print_header_service_method method =
    let vars = set "OutType" (output_type_name cpp method) (
      set "InType" (input_type_name cpp method) (
        set "MethodId" (to_string method.method_id) (
          set "MethodName" method.name
            (set "RawMethodName" (proper_prefix_token (codes "raw") method.name) [])))) in
    print_vars vars "inline virtual\nseastar::future<smf::rpc_typed_envelope<$OutType$>>\n"
    >> print_vars vars "$MethodName$(smf::rpc_recv_typed_context<$InType$> &&rec) {\n"
    >> indent
    >> print_vars vars
        "using out_type = $OutType$;\nusing env_t = smf::rpc_typed_envelope<out_type>;\nenv_t data;\n// User should override this method.\n//\n// Helpful for clients to set the status.\n// Typically follows HTTP style. Not imposed by smf whatsoever.\n// i.e. 501 == Method not implemented\ndata.envelope.set_status(501);\nreturn seastar::make_ready_future<env_t>(std::move(data));\n"
    >> outdent
    >> print "}\n"
    >> print_vars vars "inline virtual\nseastar::future<smf::rpc_envelope>\n"
    >> print_vars vars "$RawMethodName$(smf::rpc_recv_context &&c) {\n"
    >> indent
    >> print_vars vars
        "using inner_t = $InType$;\nusing input_t = smf::rpc_recv_typed_context<inner_t>;\nusing mid_t = smf::rpc_typed_envelope<$OutType$>;\nreturn $MethodName$(input_t(std::move(c))).then([this](mid_t x) {\n"
    >> indent
    >> print "return seastar::make_ready_future<smf::rpc_envelope>(x.serialize_data());\n"
    >> outdent
    >> print "});\n"
    >> outdent
    >> print "}\n"

unfoldable pub print_header_service : Service → Action
unfolding print_header_service_ctor_dtor print_header_service_handles
    print_header_service_handle_request_id print_header_service_method
print_header_service service =
    let vars = set "ServiceHandleSize" (to_string (length service.methods)) (
      set "ServiceID" (to_string service.service_id) (set "Service" service.raw_service.name [])) in
    print_vars vars "class $Service$: public smf::rpc_service {\n"
    >> print " private:\n"
    >> print_vars vars
        "  std::array<smf::rpc_service_method_handle, $ServiceHandleSize$> handles_;\n"
    >> print " public:\n"
    >> indent
    >> print_header_service_ctor_dtor service
    >> print "virtual const char *\nservice_name() const override final {\n"
    >> indent
    >> print_vars vars "return \"$Service$\";\n"
    >> outdent
    >> print "}\n"
    >> print "virtual uint32_t\nservice_id() const override final {\n"
    >> indent
    >> print_vars vars "return $ServiceID$;\n"
    >> outdent
    >> print "}\n"
    >> print "virtual std::ostream &\nprint(std::ostream &o) const override final {\n"
    >> indent
    >> print "return o << *this;\n"
    >> outdent
    >> print "}\n"
    >> print_header_service_handles service
    >> print_header_service_handle_request_id service
    >> for_each service.methods print_header_service_method
    >> outdent
    >> print_vars vars "}; // end of service: $Service$\n"
