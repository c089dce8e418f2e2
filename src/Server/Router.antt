-- ===== src/Server/Router.antt =====
-- src/core/rpc_handle_router.cc and src/include/smf/rpc_service.h.
use Prim.Native.String.{String}
use smf.Prelude.{ℕ, ◌≡◌, ◌↔◌, refl, List, [], ◌∷◌, ◌++◌, Option, none, some, arith, All}
use smf.Rpc.Future.{Future}
use smf.Rpc.Envelope.{Envelope}
use smf.Rpc.RecvContext.{RecvContext}

abbrev pub MethodHandle : Type 0
MethodHandle = RecvContext → Future Envelope

-- The virtual methods of a service; the generated class implements the last.
pub record Service : Type 0 where
  pub service_name : String
  pub service_id : ℕ
  pub method_for_request_id : ℕ → Option MethodHandle

unfoldable pub get_handle_for_request : List Service → ℕ → Option MethodHandle
get_handle_for_request [] id = none
get_handle_for_request (s ∷ services) id = elim (s.method_for_request_id id) [
  | some handle ↦ some handle
  | none ↦ get_handle_for_request services id
]

unfoldable pub register_service : List Service → Service → List Service
register_service services s = services ++ s ∷ []

-- A request goes to the service that was registered first among those that know it, so a new
-- service gets the requests that were unknown before and takes none from another.
pub get_handle-register :
    (services : List Service) (s : Service) (id : ℕ)
    → get_handle_for_request (register_service services s) id
      ≡ elim (get_handle_for_request services id) [
        | some handle ↦ some handle
        | none ↦ s.method_for_request_id id
      ]
unfolding get_handle_for_request register_service
get_handle-register [] s id = ground arith
get_handle-register (t ∷ services) s id = ground (arith, get_handle-register services s id)

pub get_handle-first :
    (s : Service) (services : List Service) (id : ℕ) (handle : MethodHandle)
    → s.method_for_request_id id ≡ some handle
    → get_handle_for_request (s ∷ services) id ≡ some handle
unfolding get_handle_for_request
get_handle-first s services id handle e = rw e refl

-- A request has no route exactly when no service knows it.
pub get_handle-none_iff :
    (services : List Service) (id : ℕ)
    → (get_handle_for_request services id ≡ none)
      ↔ All (λ s. s.method_for_request_id id ≡ none) services
unfolding get_handle_for_request
get_handle-none_iff [] id = (λ e. tt, λ e. refl)
get_handle-none_iff (s ∷ services) id = (
  λ e. (ground arith, (get_handle-none_iff services id).0 (ground arith)),
  λ e. rw e.0 ((get_handle-none_iff services id).1 e.1),
)
