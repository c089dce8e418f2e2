-- ===== src/Rpc/Connection.antt =====
-- src/include/smf/rpc_connection.h, over the states of the two streams.
use Prim.Native.String.{String, ◌++◌}
use smf.Prelude.{ℕ, ◌≡◌, refl, Bool, true, false, not, ◌&&◌, Option, none, some, arith}
use smf.Rpc.Stream.{InputStream}

pub record Connection (S O : Type 0) : Type 0 where
  pub istream : S
  pub ostream : O
  pub istream_active_parser : ℕ
  pub error : Option String
  pub enabled : Bool

module _ {S O : Type 0} where
  unfoldable pub connection : S → O → Connection S O
  connection s o = record {
    istream = s;
    ostream = o;
    istream_active_parser = 0;
    error = none;
    enabled = true;
  }

  unfoldable pub disable : Connection S O → Connection S O
  disable c = record c { enabled = false }

  unfoldable pub has_error : Connection S O → Bool
  has_error c = elim c.error [ none ↦ false | some e ↦ true ]

  -- Keeps the history of errors.
  unfoldable pub set_error : String → Connection S O → Connection S O
  set_error e c = elim c.error [
    | none ↦ record c { error = some e }
    | some old ↦ record c { error = some (old ++ " :: " ++ e) }
  ]

  unfoldable pub get_error : Connection S O → String
  get_error c = elim c.error [ none ↦ "" | some e ↦ e ]

  unfoldable pub is_valid : InputStream S → Connection S O → Bool
  unfolding has_error
  is_valid io c = c.enabled && not (has_error c) && not (io.eof c.istream)

  -- An error is never forgotten, and ends the connection's validity.
  pub is_valid-set_error :
      (io : InputStream S) (e : String) (c : Connection S O) → is_valid io (set_error e c) ≡ false
  unfolding is_valid set_error
  is_valid-set_error io e c = ground arith

  pub is_valid-disable : (io : InputStream S) (c : Connection S O) → is_valid io (disable c) ≡ false
  unfolding is_valid disable
  is_valid-disable io c = refl
