-- ===== src/Server/Machine/Connections.antt =====
-- The set of open connections and its counter.
use smf.Prelude.{ℕ, ◌≤◌, ◌<◌, ◌≡◌, refl, true, false, List, [], ◌∷◌, arith, ◌==◌, if◌then◌else◌}
use smf.Rpc.Connection.{has_error, disable}
use smf.Server.Stats.{inc_u64}
use smf.Server.Dispatch.{Served, contains, erase, cleanup_dispatch_rpc}

-- Ids fall along the list and stay below the bound: newest first, none twice.
abbrev pub Below : ℕ → List ℕ → Type 0
Below n [] = Unit {0}
Below n (x ∷ xs) = (x < n) × Below x xs

Below-mono : (m n : ℕ) (xs : List ℕ) → m ≤ n → Below m xs → Below n xs
Below-mono m n [] h b = tt
Below-mono m n (x ∷ xs) h b = (omega arith, b.1)

pub erase-Below : (id n : ℕ) (xs : List ℕ) → Below n xs → Below n (erase id xs)
unfolding erase
erase-Below id n [] b = tt
erase-Below id n (x ∷ xs) b = ground (arith, erase-Below id x xs b.1, Below-mono x n xs)

pub contains_above : (id n : ℕ) (xs : List ℕ) → Below n xs → n ≤ id → contains xs id ≡ false
unfolding contains
contains_above id n [] b h = refl
contains_above id n (x ∷ xs) b h = ground (arith, contains_above id x xs b.1)

pub contains-erase :
    (id n : ℕ) (xs : List ℕ) (j : ℕ)
    → Below n xs
    → contains (erase id xs) j ≡ (if id == j then false else contains xs j)
unfolding contains erase
contains-erase id n [] j b = ground arith
contains-erase id n (x ∷ xs) j b =
    ground (arith, contains-erase id x xs j b.1, contains_above id x xs b.1)

module _ {S O : Type 0} where
  -- The cleanup of an open connection in error disables it and counts one bad request; then it is
  -- no longer open, any other connection is open exactly if it was, and another cleanup changes
  -- nothing, where the ids of the open connections fall along their list.
  pub cleanup_closes :
      (id n : ℕ) (w : Served S O) (open_connections : List ℕ)
      → Below n open_connections
      → has_error w.conn ≡ true
      → contains open_connections id ≡ true
      → let after = cleanup_dispatch_rpc id (w, open_connections) in
        ((j : ℕ) → contains after.1 j ≡ (if id == j then false else contains open_connections j))
        × (after.0.conn ≡ disable w.conn)
        × (after.0.stats.bad_requests ≡ inc_u64 w.stats.bad_requests)
        × (cleanup_dispatch_rpc id after ≡ after)
  unfolding cleanup_dispatch_rpc
  cleanup_closes id n w open_connections b e opened = (
    λ j. ground (arith, contains-erase id n open_connections j b),
    ground arith,
    ground arith,
    ground (arith, contains-erase id n open_connections id b),
  )
