-- ===== src/Smfc/Generated/Dispatches.antt =====
-- A generated client and a generated service agree on their methods.
use smf.Prelude.{
  ℕ, zero, suc, ◌≡◌, ◌≢◌, refl, sym, ap, ◌∙◌, false, inl, inr, List, [], ◌∷◌, some, All, get_elem?,
  bit_xor, ◌==◌, ==_iff, ==_self, Bool-cases,
}
use mathlib.Core.Path.{subst}
use mathlib.Core.Option.{some-injective}
use smf.Prelude.Xor.{bit_xor_cancel}
use smf.Rpc.Future.{ready}
use smf.Rpc.Envelope.{Envelope, map_header}
use smf.Rpc.RecvContext.{RecvContext, session}
use smf.Smfc.Schema.{Method}
use smf.Smfc.Generated.{Implementation, raw_method, handle, method_for_request_id}

All-get_elem? {ℓ} :
    {A : Type ℓ} (P : A → Type 0) (xs : List A) (n : ℕ) (x : A)
    → All P xs
    → get_elem? xs n ≡ some x
    → P x
All-get_elem? P [] n x h e = cc
All-get_elem? P (y ∷ xs) zero x h e = subst P (some-injective _ _ e) h.0
All-get_elem? P (y ∷ xs) (suc n) x h e = All-get_elem? P xs n x h.1 e

-- The methods of one service, no two of the same id: a compiler takes no two cases of a `switch`
-- with the same label.
abbrev pub DistinctMethods : ℕ → List Method → Type 0
DistinctMethods service_id [] = Unit
DistinctMethods service_id (m ∷ methods) =
    (m.service_id ≡ service_id)
    × All (λ m'. m'.method_id ≢ m.method_id) methods
    × DistinctMethods service_id methods

service_id-get_elem? :
    (service_id : ℕ) (methods : List Method) (n : ℕ) (m : Method)
    → DistinctMethods service_id methods
    → get_elem? methods n ≡ some m
    → m.service_id ≡ service_id
service_id-get_elem? sid [] n m d e = cc
service_id-get_elem? sid (m₀ ∷ ms) zero m d e =
    ap (λ (x : Method). x.service_id) (sym (some-injective _ _ e)) ∙ d.0
service_id-get_elem? sid (m₀ ∷ ms) (suc n) m d e = service_id-get_elem? sid ms n m d.2 e

module _ (xxh64 : List ℕ → ℕ) (service_id : ℕ) where
  -- The id that a client's method gives a request selects the implementation of the same method.
  pub switch-selects :
      (methods : List Method) (implementations : List Implementation) (n : ℕ) (m : Method)
      (i : Implementation)
      → DistinctMethods service_id methods
      → get_elem? methods n ≡ some m
      → get_elem? implementations n ≡ some i
      → method_for_request_id xxh64 methods implementations (bit_xor m.service_id m.method_id)
        ≡ some (handle xxh64 i)
  unfolding method_for_request_id
  switch-selects [] is n m i d e f = cc
  switch-selects (m₀ ∷ ms) [] n m i d e f = cc
  switch-selects (m₀ ∷ ms) (i₀ ∷ is) zero m i d e f =
      first-case (some-injective _ _ e) (some-injective _ _ f)
    where
      first-case :
          m₀ ≡ m
          → i₀ ≡ i
          → method_for_request_id xxh64 (m₀ ∷ ms) (i₀ ∷ is) (bit_xor m.service_id m.method_id)
            ≡ some (handle xxh64 i)
      first-case same_m same_i = rw (← same_m) (
          rw (==_self (bit_xor m₀.service_id m₀.method_id))
            (ap (λ j. some (handle xxh64 j)) same_i))
  switch-selects (m₀ ∷ ms) (i₀ ∷ is) (suc n) m i d e f =
      rw (other-case) (switch-selects ms is n m i d.2 e f)
    where
      other-case : (bit_xor m₀.service_id m₀.method_id == bit_xor m.service_id m.method_id) ≡ false
      other-case =
          elim (Bool-cases
            (bit_xor m₀.service_id m₀.method_id == bit_xor m.service_id m.method_id)) [
              | inl same ↦ absurd (
                  All-get_elem? (λ (m' : Method). m'.method_id ≢ m₀.method_id) ms n m d.1 e
                    (sym (
                      bit_xor_cancel service_id m₀.method_id m.method_id (
                        ap (λ x. bit_xor x m₀.method_id) (sym d.0)
                        ∙ (==_iff _ _).0 same
                        ∙ ap (λ x. bit_xor x m.method_id)
                            (service_id-get_elem? service_id ms n m d.2 e)))))
              | inr other ↦ other
            ]

  -- The answer of a handle is the one of the implementation, with the session of the request.
  pub handle-answers :
      (i : Implementation) (c : RecvContext) (e : Envelope)
      → raw_method xxh64 i c ≡ ready e
      → (handle xxh64 i c ≡ ready (map_header (λ h. record h { session = session c }) e))
  unfolding handle
  handle-answers i c e answered = rw answered refl
