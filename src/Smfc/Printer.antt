-- ===== src/Smfc/Printer.antt =====
-- src/smfc/smf_printer.h, with its default escape character.
pub mod Laws
use Prim.Native.Char.{code}
use Prim.Native.String.{String}
use smf.Prelude.{
  ℕ, zero, suc, ◌+◌, ◌-◌, ◌*◌, Bool, true, false, not, ◌&&◌, List, [], ◌∷◌, ◌++◌, Option, none,
  some, replicate, ◌==◌, if◌then◌else◌,
}

infixr 2 ◌>>◌
abbrev pub Text : Type 0
Text = List ℕ

abbrev pub codes : String → Text
codes String.[] = []
codes (String.◌∷◌ c s) = code c ∷ codes s

unfoldable pub same : Text → Text → Bool
same [] [] = true
same [] (y ∷ ys) = false
same (x ∷ xs) [] = false
same (x ∷ xs) (y ∷ ys) = x == y && same xs ys

-- `vars[key] = value` puts the pair in front, where `lookup` finds it first.
abbrev pub Vars : Type 0
Vars = List (Text × Text)

unfoldable pub set : String → Text → Vars → Vars
set key value vars = (codes key, value) ∷ vars

unfoldable pub lookup : Text → Vars → Option Text
lookup key [] = none
lookup key ((k, v) ∷ vars) = if same k key then some v else lookup key vars

-- The text before and after the first escape character.
unfoldable pub split_escape : Text → Option (Text × Text)
split_escape [] = none
split_escape (c ∷ s) =
    let rest = split_escape s in
    if c == b'$' then some ([], s) else elim rest [ none ↦ none | some r ↦ some (c ∷ r.0, r.1) ]

with_value : Text → Option Text → Text → Option Text
with_value before none after = none
with_value before (some value) after = some (before ++ value ++ after)

closed : Vars → Text → Option (Text × Text) → Option Text
unfolding with_value
closed vars before none = none
closed vars before (some (key, after)) = with_value before (lookup key vars) after

opened : Vars → Option (Text × Text) → Option Text
unfolding closed
opened vars none = none
opened vars (some (before, rest)) = closed vars before (split_escape rest)

-- One round; `none` where the loop breaks.
unfoldable pub substitute_once : Vars → Text → Option Text
unfolding opened
substitute_once vars s = opened vars (split_escape s)

-- The loop, for `n` tests at most; `none` where it goes on.
unfoldable pub substitute : ℕ → Vars → Text → Option Text
substitute zero vars s = none
substitute (suc n) vars s = elim (substitute_once vars s) [
  | none ↦ some s
  | some s' ↦ substitute n vars s'
]

unfoldable pub escapes : Text → ℕ
escapes [] = 0
escapes (c ∷ s) = if c == b'$' then suc (escapes s) else escapes s

unfoldable pub c_str : Text → Text
c_str [] = []
c_str (c ∷ s) = let rest = c_str s in if c == 0 then [] else c ∷ rest

pub record Printer : Type 0 where
  pub out : Text
  pub indents : ℕ
  pub indent_char : ℕ
  pub indent_step : ℕ

abbrev pub printer : (indent_char indent_step : ℕ) → Printer
printer char step = record { out = []; indents = 0; indent_char = char; indent_step = step }

unfoldable pub is_empty : Text → Bool
is_empty [] = true
is_empty (c ∷ s) = false

-- What follows the indentation of a line: after a line feed that something follows, the next line's.
unfoldable pub indented : (pad : Text) → Text → Text
unfolding is_empty
indented pad [] = []
indented pad (c ∷ s) =
    let rest = indented pad s in
    if c == b'\n' && not (is_empty s) then c ∷ pad ++ rest else c ∷ rest

-- A step of a generator; `none` where an `assert` or a CHECK fails, or a substitution goes on.
abbrev pub Action : Type 0
Action = Printer → Option Printer

unfoldable pub print_text : Text → Printer → Printer
unfolding indented
print_text s p =
    let pad = replicate (p.indents * p.indent_step) p.indent_char in
    record p { out = p.out ++ pad ++ indented pad s }

unfoldable pub print : String → Action
unfolding print_text
print s p = some (print_text (codes s) p)

-- `print` of a computed text.
unfoldable pub print_c_str : Text → Action
unfolding print_text c_str
print_c_str s p = some (print_text (c_str s) p)

unfoldable pub print_vars : Vars → String → Action
unfolding print_text c_str escapes substitute
print_vars vars s p = elim (substitute (suc (escapes (codes s))) vars (codes s)) [
  | none ↦ none
  | some t ↦ some (print_text (c_str t) p)
]

unfoldable pub indent : Action
indent p = some (record p { indents = p.indents + 1 })

-- `assert(indent_ >= 0)`.
unfoldable pub outdent : Action
outdent p = if p.indents == 0 then none else some (record p { indents = p.indents - 1 })

unfoldable pub ◌>>◌ : Action → Action → Action
(a >> b) p = elim (a p) [ none ↦ none | some p' ↦ b p' ]

abbrev pub skip : Action
skip p = some p

unfoldable pub for_each : {A : Type 0} → List A → (A → Action) → Action
for_each [] f p = some p
for_each (x ∷ xs) f p = elim (f x p) [ none ↦ none | some p' ↦ for_each xs f p' ]

unfoldable pub when : Bool → Action → Action
when true a p = a p
when false a p = some p

-- `create_directories` returns, or throws.
unfoldable pub with_directories : (created : Bool) → Action
with_directories true p = some p
with_directories false p = none

-- The elements with their positions, for a loop over an index.
unfoldable pub enumerate : {A : Type 0} → ℕ → List A → List (ℕ × A)
enumerate i [] = []
enumerate i (x ∷ xs) = (i, x) ∷ enumerate (i + 1) xs
