-- ===== src/Server/Semaphore.antt =====
-- What the server and the client rely on of seastar::semaphore, the `resources_available` of
-- src/include/smf/rpc_connection_limits.h.
use smf.Prelude.{ℕ, ◌+◌, ◌^◌, ◌<◌, ◌≡◌, Option, some}

-- `initial n` has n units. `wait n q` is `none` while the caller is blocked. `signal` takes a
-- size_t, and the count is a signed word: it is the sum where the sum fits.
pub record Semaphore (Q : Type 0) : Type 0 where
  pub initial : ℕ → Q
  pub wait : ℕ → Q → Option Q
  pub signal : ℕ → Q → Q
  pub count : Q → ℕ
  pub count-initial : (n : ℕ) → n < 2 ^ 63 → count (initial n) ≡ n
  pub count-wait : (n : ℕ) (q q' : Q) → wait n q ≡ some q' → count q' + n ≡ count q
  pub count-signal : (n : ℕ) (q : Q) → count q + n < 2 ^ 63 → count (signal n q) ≡ count q + n
