-- ===== src/Rpc/Future.antt =====
-- A resolved seastar::future: a value or an exception.

use smf.Prelude.{◌≡◌, refl, ◌⊎◌, inl, inr}

-- The exceptions that this code throws or lets through.
pub data Exception : Type 0 where
  -- std::runtime_error of LOG_THROW and LOG_THROW_IF
  runtime_error : Exception
  -- the two classes of src/core/rpc_client.cc
  invalid_connection_state remote_connection_error : Exception
  -- what seastar::with_timeout and a closed gate raise
  timed_out_error gate_closed_exception : Exception
  -- no exception of C++: a null pointer was read, and the program's behaviour is undefined
  undefined_behaviour : Exception

pub data Future {ℓ} (A : Type ℓ) : Type ℓ where
  ready : A → Future A
  failed : Exception → Future A

-- future<>
abbrev pub Completion : Type 0
Completion = Future (Unit {0})

-- `.then`.
infixl 5 ◌>>=◌
abbrev pub ◌>>=◌ {ℓ κ} : {A : Type ℓ} {B : Type κ} → Future A → (A → Future B) → Future B
ready a >>= f = f a
failed e >>= f = failed e

pub Future-cases {ℓ} :
    {A : Type ℓ} (r : Future A) → ((a : A) × (r ≡ ready a)) ⊎ ((e : Exception) × (r ≡ failed e))
Future-cases (ready a) = inl (a, refl)
Future-cases (failed e) = inr (e, refl)
