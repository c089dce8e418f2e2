-- ===== src/Rpc/TypedContext.antt =====
-- src/include/smf/rpc_recv_typed_context.h and src/include/smf/fbs_typed_buf.h: a message with the
-- flatbuffers table that its payload holds. The table is a view of the bytes, which flatbuffers
-- gives without a check.
use smf.Prelude.{
  ℕ, ◌≡◌, refl, Bool, true, false, ◌&&◌, List, Option, none, some, length, ◌==◌, if◌then◌else◌,
}
use smf.Rpc.Future.{Future, ready, failed, runtime_error}
use smf.Rpc.RecvContext.{RecvContext}

-- What is called of flatbuffers, for a table type: `GetMutableRoot` and the verifier.
pub record Flatbuffers (T : Type 0) : Type 0 where
  pub get_root : List ℕ → T
  pub verify : List ℕ → T → Bool

pub record TypedContext (T : Type 0) : Type 0 where
  pub ctx : Option RecvContext
  pub cache : Option T

module _ {T : Type 0} (fbs : Flatbuffers T) where
  unfoldable pub typed_context : Option RecvContext → TypedContext T
  typed_context none = record { ctx = none; cache = none }
  typed_context (some c) = record { ctx = some c; cache = some (fbs.get_root c.payload) }

  -- `operator bool`.
  unfoldable pub to_bool : TypedContext T → Bool
  to_bool t = elim t.ctx [ none ↦ false | some c ↦ true ]

  unfoldable pub get : TypedContext T → Option T
  get t = t.cache

  verify_in : Option RecvContext → Option T → Bool
  verify_in (some c) (some view) = fbs.verify c.payload view
  verify_in _ _ = false

  unfoldable pub verify_fbs : TypedContext T → Bool
  unfolding verify_in
  verify_fbs t = verify_in t.ctx t.cache

  -- A context and its table belong together, and a table is there exactly where a context is.
  pub get-typed_context :
      (r : Option RecvContext)
      → get (typed_context r) ≡ elim r [ none ↦ none | some c ↦ some (fbs.get_root c.payload) ]
  unfolding get typed_context
  get-typed_context none = refl
  get-typed_context (some c) = refl

-- `cache_` stays after the buffer was moved out of an object by its move constructor; after
-- `move_buf` it is null.
pub record TypedBuf (T : Type 0) : Type 0 where
  pub buf : List ℕ
  pub cache : Option T

module _ {T : Type 0} (fbs : Flatbuffers T) where
  -- The check is there in a debug build alone.
  unfoldable pub typed_buf : (debug : Bool) → List ℕ → Future (TypedBuf T)
  typed_buf debug body =
      if debug && length body == 0
      then failed runtime_error
      else ready (record { buf = body; cache = some (fbs.get_root body) })

  unfoldable pub move_buf : TypedBuf T → List ℕ × TypedBuf T
  move_buf b = (b.buf, record b { cache = none })
