-- ===== src/Random.antt =====
-- src/core/random.cc, over the generator and the distributions of the standard library.
mod Tests
use mathlib.Core.Path.{subst}
use native.Mathlib.Nat.{mod-lt}
use smf.Prelude.{
  ℕ, zero, suc, ◌+◌, ◌%◌, ◌<◌, ◌≤◌, ◌≡◌, refl, sym, ap, ◌∙◌, Bool, List, [], ◌∷◌, ◌++◌, Option,
  none, some, arith, All, length, get_or, get_elem?,
}
use smf.Smfc.Printer.{Text, codes}

-- `std::mt19937` in a state of `R`, and `uniform_int_distribution(0, max)`, whose results are at
-- most `max`.
pub record Generator (R : Type 0) : Type 0 where
  pub uniform : (max : ℕ) → R → ℕ × R
  pub uniform-le : (max : ℕ) (r : R) → (uniform max r).0 ≤ max

abbrev pub letters_and_digits : Text
letters_and_digits = codes "abcdefghijklmnopqrstuvwxyzABCDEFGHIJKLMNOPQRSTUVWXYZ1234567890"

abbrev pub all_characters : Text
all_characters = letters_and_digits ++ codes "!@#$%^&*()`~-_=+[{]}|;:'\",<.>/?"

module _ {R : Type 0} (g : Generator R) where
  -- `std::uniform_int_distribution<uint64_t>`, over all of its type.
  unfoldable pub next : R → ℕ × R
  next rand = g.uniform 18446744073709551615 rand

  -- The index is drawn from 0 to the size of the alphabet, and taken modulo the size.
  unfoldable pub randstr : Text → (size : ℕ) → R → Text × R
  randstr dict zero rand = ([], rand)
  randstr dict (suc size) rand =
      let (draw, rand') = g.uniform (length dict) rand in
      let (rest, rand'') = randstr dict size rand' in
      (get_or dict (draw % length dict) 0 ∷ rest, rand'')

  unfoldable pub next_str : (size : ℕ) → R → Text × R
  unfolding randstr
  next_str size rand = randstr all_characters size rand

  unfoldable pub next_alphanum : (size : ℕ) → R → Text × R
  unfolding randstr
  next_alphanum size rand = randstr letters_and_digits size rand

abbrev pub IsIn : Text → ℕ → Type 0
IsIn dict c = (i : ℕ) × (get_elem? dict i ≡ some c)

get_or-IsIn : (dict : Text) (i d : ℕ) → i < length dict → IsIn dict (get_or dict i d)
get_or-IsIn [] i d h = absurd (omega arith)
get_or-IsIn (x ∷ xs) zero d h = (0, refl)
get_or-IsIn (x ∷ xs) (suc i) d h = let (j, at) = get_or-IsIn xs i d (omega arith) in (suc j, at)

module _ {R : Type 0} (g : Generator R) where
  -- A random text over an alphabet that is not empty has the length that was asked for, and all of
  -- its characters are in the alphabet.
  randstr-IsIn :
      (dict : Text) (size : ℕ) (rand : R)
      → 0 < length dict
      → (length (randstr g dict size rand).0 ≡ size) × All (IsIn dict) (randstr g dict size rand).0
  unfolding randstr
  randstr-IsIn dict zero rand h = (refl, tt)
  randstr-IsIn dict (suc size) rand h =
      let (draw, rand') = g.uniform (length dict) rand in
      let (long, inside) = randstr-IsIn dict size rand' h in
      (ap suc long, (get_or-IsIn dict (draw % length dict) 0 (mod-lt draw h), inside))
