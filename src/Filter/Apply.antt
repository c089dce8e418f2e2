-- ===== src/Filter/Apply.antt =====
-- src/include/smf/rpc_filter.h: `rpc_filter_apply` over the filters of a container, first to last.
use smf.Prelude.{◌≡◌, refl, inl, inr, List, [], ◌∷◌, ◌++◌}
use smf.Rpc.Future.{Future, ready, ◌>>=◌, Future-cases}

module _ {ℓ} {A : Type ℓ} where
  unfoldable pub rpc_filter_apply : List (A → Future A) → A → Future A
  rpc_filter_apply [] arg = ready arg
  rpc_filter_apply (f ∷ fs) arg = f arg >>= rpc_filter_apply fs

  -- Filters that are registered later see what the earlier ones made of the message, and see
  -- nothing if one of them failed.
  pub rpc_filter_apply-append :
      (fs gs : List (A → Future A)) (a : A)
      → rpc_filter_apply (fs ++ gs) a ≡ (rpc_filter_apply fs a >>= rpc_filter_apply gs)
  unfolding rpc_filter_apply
  rpc_filter_apply-append [] gs a = refl
  rpc_filter_apply-append (f ∷ fs) gs a = elim (Future-cases (f a)) [
    | inl (b, e) ↦ rw e (rpc_filter_apply-append fs gs b)
    | inr (x, e) ↦ rw e
  ]
