-- ===== src/Client/Counts.antt =====
-- How often a promise is outstanding or resolved.
use smf.Prelude.{ℕ, ◌+◌, ◌≡◌, ◌≤◌, Bool, true, false, List, [], ◌∷◌, some, arith, ◌==◌}
use smf.Rpc.Future.{failed, remote_connection_error}
use smf.Rpc.RecvContext.{Platform}
use smf.Client.SlotMap.{Slots, find, insert, erase}
use smf.Client.{Config, Client, Outcome, fail_all}

-- How often a promise occurs among the outstanding and the resolved ones.
abbrev pub one_if : Bool → ℕ
one_if true = 1
one_if false = 0

abbrev pub outstanding : ℕ → Slots → ℕ
outstanding w [] = 0
outstanding w ((s, v) ∷ slots) = one_if (v == w) + outstanding w slots

abbrev pub settled : ℕ → List (ℕ × Outcome) → ℕ
settled w [] = 0
settled w ((v, r) ∷ resolved) = one_if (v == w) + settled w resolved

module _ {S O : Type 0} where
  abbrev pub uses : ℕ → Client S O → ℕ
  uses w c = outstanding w c.rpc_slots + settled w c.resolved

-- Moving every slot to the resolved ones changes no count.
pub settled-fail_all :
    {S O : Type 0} (p : Platform) (g : Config S O) (w : ℕ) (slots : Slots)
    (resolved : List (ℕ × Outcome))
    → settled w (fail_all p g slots resolved) ≡ outstanding w slots + settled w resolved
unfolding fail_all
settled-fail_all p g w [] resolved = omega arith
settled-fail_all p g w ((s, v) ∷ slots) resolved =
    omega (arith, settled-fail_all p g w slots ((v, failed remote_connection_error) ∷ resolved))

pub outstanding-insert :
    (w s v : ℕ) (slots : Slots)
    → outstanding w (insert s v slots) ≤ one_if (v == w) + outstanding w slots
unfolding insert
outstanding-insert w s v [] = omega arith
outstanding-insert w s v ((t, x) ∷ slots) = ground (arith, outstanding-insert w s v slots)

pub outstanding-erase :
    (w s v : ℕ) (slots : Slots)
    → find s slots ≡ some v
    → outstanding w slots ≡ one_if (v == w) + outstanding w (erase s slots)
unfolding find erase
outstanding-erase w s v [] e = ground arith
outstanding-erase w s v ((t, x) ∷ slots) e = ground (arith, outstanding-erase w s v slots)
