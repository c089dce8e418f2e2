-- ===== src/Smfc/Python/Imports.antt =====
-- The set of modules that a generated Python client imports.
use smf.Prelude.{◌≡◌, refl, true, false, List, [], ◌∷◌, some, inl, inr, arith, Option-cases}
use mathlib.Core.Option.{some-injective}
use smf.Smfc.Printer.{Text, same}
use smf.Smfc.Schema.{Method, Service, python, output_type_name}
use smf.Smfc.Python.{before_point, less, insert, imports_of, all_imports}
use smf.Smfc.Python.Closes.{all_imports_exist}

abbrev pub Above : Text → List Text → Type 0
Above x [] = Unit {0}
Above x (y ∷ ys) = less x y ≡ true

-- Each text is less than the next.
abbrev pub Ascends : List Text → Type 0
Ascends [] = Unit {0}
Ascends (x ∷ xs) = Above x xs × Ascends xs

less_otherwise : (s t : Text) → same s t ≡ false → less s t ≡ false → less t s ≡ true
unfolding same less
less_otherwise [] [] d n = ground arith
less_otherwise [] (y ∷ t) d n = ground arith
less_otherwise (x ∷ s) [] d n = refl
less_otherwise (x ∷ s) (y ∷ t) d n = ground (arith, less_otherwise s t)

insert-Above : (x s : Text) (ts : List Text) → Above x ts → less x s ≡ true → Above x (insert s ts)
unfolding insert
insert-Above x s [] a l = l
insert-Above x s (t ∷ ts) a l = ground arith

insert-Ascends : (s : Text) (ts : List Text) → Ascends ts → Ascends (insert s ts)
unfolding insert
insert-Ascends s [] a = (tt, tt)
insert-Ascends s (t ∷ ts) a =
    ground (arith, less_otherwise s t, insert-Above t s ts a.0, insert-Ascends s ts a.1)

imports_of-Ascends :
    (ms : List Method) (imports r : List Text)
    → Ascends imports
    → imports_of ms imports ≡ some r
    → Ascends r
unfolding imports_of
imports_of-Ascends [] imports r a e = rw (← some-injective _ _ e) a
imports_of-Ascends (m ∷ ms) imports r a e =
    elim (Option-cases (before_point (output_type_name python m))) [
      | inl gone ↦ ground arith
      | inr (t, found) ↦
          imports_of-Ascends ms (insert t imports) r (insert-Ascends t imports a) (ground arith)
    ]

all_imports-Ascends :
    (ss : List Service) (imports r : List Text)
    → Ascends imports
    → all_imports ss imports ≡ some r
    → Ascends r
unfolding all_imports
all_imports-Ascends [] imports r a e = rw (← some-injective _ _ e) a
all_imports-Ascends (s ∷ ss) imports r a e = elim (Option-cases (imports_of s.methods imports)) [
  | inl gone ↦ ground arith
  | inr (t, found) ↦
      all_imports-Ascends ss t r (imports_of-Ascends s.methods imports t a found) (ground arith)
]

-- Whatever the services, the set of the imports of a Python client is found, and each import in it
-- is less than the next.
pub all_imports-ascend :
    (ss : List Service) → (r : List Text) × (all_imports ss [] ≡ some r) × Ascends r
all_imports-ascend ss =
    let found = all_imports_exist ss [] in
    (found.0, found.1, all_imports-Ascends ss [] found.0 tt found.1)
