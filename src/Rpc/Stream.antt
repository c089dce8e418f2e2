-- ===== src/Rpc/Stream.antt =====
-- What the program relies on of seastar's input_stream and output_stream.
use smf.Prelude.{ℕ, ◌≡◌, List, ◌++◌, Bool, take, drop}

-- `pending` is what the peer has sent and the program has not read, up to the end of the stream.
-- A short read happens only at that end.
pub record InputStream (S : Type 0) : Type 0 where
  pub read_exactly : ℕ → S → List ℕ × S
  pub eof : S → Bool
  pub pending : S → List ℕ
  pub read-eq-take : (n : ℕ) (s : S) → (read_exactly n s).0 ≡ take n (pending s)
  pub pending-read : (n : ℕ) (s : S) → pending (read_exactly n s).1 ≡ drop n (pending s)

-- `written` is all that was handed to the stream, in order.
pub record OutputStream (O : Type 0) : Type 0 where
  pub write : List ℕ → O → O
  pub flush : O → O
  pub written : O → List ℕ
  pub written-write : (bs : List ℕ) (o : O) → written (write bs o) ≡ written o ++ bs
  pub written-flush : (o : O) → written (flush o) ≡ written o
