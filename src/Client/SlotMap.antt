-- ===== src/Client/SlotMap.antt =====
-- The `unordered_map` from sessions to work items.
use smf.Prelude.{ℕ, ◌≡◌, refl, List, [], ◌∷◌, Option, none, some, arith, ◌==◌, if◌then◌else◌}

-- (session, promise)
abbrev pub Slots : Type 0
Slots = List (ℕ × ℕ)

unfoldable pub find : ℕ → Slots → Option ℕ
find s [] = none
find s ((t, w) ∷ slots) = if t == s then some w else find s slots

-- `insert` changes nothing where the key is taken.
unfoldable pub insert : ℕ → ℕ → Slots → Slots
insert s v [] = (s, v) ∷ []
insert s v ((t, w) ∷ slots) = if t == s then (t, w) ∷ slots else (t, w) ∷ insert s v slots

unfoldable pub erase : ℕ → Slots → Slots
erase s [] = []
erase s ((t, w) ∷ slots) = if t == s then slots else (t, w) ∷ erase s slots

pub find-insert :
    (s v : ℕ) (slots : Slots) (t : ℕ)
    → find t (insert s v slots)
      ≡ (if s == t then elim (find s slots) [ none ↦ some v | some w ↦ some w ] else find t slots)
unfolding find insert
find-insert s v [] t = ground arith
find-insert s v ((i, w) ∷ slots) t = ground (arith, find-insert s v slots t)

-- No session is there twice.
abbrev pub Distinct : Slots → Type 0
Distinct [] = Unit {0}
Distinct ((s, w) ∷ slots) = (find s slots ≡ none) × Distinct slots

pub find-erase :
    (s : ℕ) (slots : Slots) (t : ℕ)
    → Distinct slots
    → find t (erase s slots) ≡ (if s == t then none else find t slots)
unfolding find erase
find-erase s [] t d = ground arith
find-erase s ((i, w) ∷ slots) t d = ground (arith, find-erase s slots t d.1)

pub insert-Distinct : (s v : ℕ) (slots : Slots) → Distinct slots → Distinct (insert s v slots)
unfolding insert find
insert-Distinct s v [] d = (refl, tt)
insert-Distinct s v ((i, w) ∷ slots) d =
    ground (arith, insert-Distinct s v slots d.1, find-insert s v slots i)

pub erase-Distinct : (s : ℕ) (slots : Slots) → Distinct slots → Distinct (erase s slots)
unfolding erase find
erase-Distinct s [] d = tt
erase-Distinct s ((i, w) ∷ slots) d =
    ground (arith, erase-Distinct s slots d.1, find-erase s slots i d.1)

-- A taken key keeps the map as it is.
pub insert_taken : (s v w : ℕ) (slots : Slots) → find s slots ≡ some w → insert s v slots ≡ slots
unfolding find insert
insert_taken s v w [] e = ground arith
insert_taken s v w ((i, x) ∷ slots) e = ground (arith, insert_taken s v w slots)
