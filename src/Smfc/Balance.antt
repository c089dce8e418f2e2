-- ===== src/Smfc/Balance.antt =====
-- Generators of smfc return, write after what was written, and close each indentation they open.
use Prim.Native.String.{String}
use smf.Prelude.{
  ℕ, suc, ◌+◌, ◌-◌, ◌≡◌, Bool, true, false, refl, sym, ◌∙◌, ap, List, [], ◌∷◌, ◌++◌, append_assoc,
  append-nil, All, none, some, arith,
}
use smf.Smfc.Printer.{
  Text, codes, Vars, set, escapes, c_str, Printer, Action, print_text, print, print_c_str,
  print_vars, indent, outdent, ◌>>◌, skip, for_each, when, enumerate, with_directories,
}
use smf.Smfc.Printer.Laws.{Clean, substitute-ends}

-- From `i` indentations, the action returns with `j` of them, and only adds text.
pub Moves : (i j : ℕ) → Action → Type 0
Moves i j a =
    (p : Printer)
    → p.indents ≡ i
    → (p' : Printer) × (a p ≡ some p')
      × (p'.indents ≡ j)
      × ((added : Text) × (p'.out ≡ p.out ++ added))

pub Moves-print : (i : ℕ) (s : String) → Moves i i (print s)
unfolding Moves print print_text
Moves-print i s p h = (print_text (codes s) p, refl, h, (_, append_assoc p.out _ _))

pub Moves-print_c_str : (i : ℕ) (s : Text) → Moves i i (print_c_str s)
unfolding Moves print_c_str print_text
Moves-print_c_str i s p h = (print_text (c_str s) p, refl, h, (_, append_assoc p.out _ _))

pub Moves-print_vars :
    (i : ℕ) (vars : Vars) (s : String) → Clean vars → Moves i i (print_vars vars s)
unfolding Moves print_vars print_text
Moves-print_vars i vars s c p h =
    let done = substitute-ends (suc (escapes (codes s))) vars (codes s) c (omega arith) in
    (
      print_text (c_str done.0) p,
      ap (λ o. elim o [ none ↦ none | some t ↦ some (print_text (c_str t) p) ]) done.1,
      h,
      (_, append_assoc p.out _ _),
    )

pub Moves-indent : (i : ℕ) → Moves i (suc i) indent
unfolding Moves indent
Moves-indent i p h =
    (record p { indents = p.indents + 1 }, refl, omega (arith, h), ([], sym (append-nil p.out)))

pub Moves-outdent : (i : ℕ) → Moves (suc i) i outdent
unfolding Moves outdent
Moves-outdent i p h = (
  record p { indents = p.indents - 1 },
  ground (arith, h),
  omega (arith, h),
  ([], sym (append-nil p.out)),
)

pub Moves-skip : (i : ℕ) → Moves i i skip
unfolding Moves
Moves-skip i p h = (p, refl, h, ([], sym (append-nil p.out)))

pub Moves-then : (i j k : ℕ) (a b : Action) → Moves i j a → Moves j k b → Moves i k (a >> b)
unfolding Moves ◌>>◌
Moves-then i j k a b ha hb p h =
    let one = ha p h in
    let two = hb one.0 one.2 in
    (
      two.0,
      ap (λ o. elim o [ none ↦ none | some q ↦ b q ]) one.1 ∙ two.1,
      two.2,
      (
        one.3.0 ++ two.3.0,
        two.3.1 ∙ ap (λ t. t ++ two.3.0) one.3.1 ∙ append_assoc p.out one.3.0 two.3.0,
      ),
    )

pub Moves-each :
    {A : Type 0} {P : A → Type 0} (i : ℕ) (xs : List A) (f : A → Action)
    → All P xs
    → ((x : A) → P x → Moves i i (f x))
    → Moves i i (for_each xs f)
unfolding Moves for_each
Moves-each i [] f v hf p h = (p, refl, h, ([], sym (append-nil p.out)))
Moves-each i (x ∷ xs) f v hf p h =
    let one = hf x v.0 p h in
    let two = Moves-each i xs f v.1 hf one.0 one.2 in
    (
      two.0,
      ap (λ o. elim o [ none ↦ none | some q ↦ for_each xs f q ]) one.1 ∙ two.1,
      two.2,
      (
        one.3.0 ++ two.3.0,
        two.3.1 ∙ ap (λ t. t ++ two.3.0) one.3.1 ∙ append_assoc p.out one.3.0 two.3.0,
      ),
    )

pub Moves-when : (i : ℕ) (b : Bool) (a : Action) → Moves i i a → Moves i i (when b a)
unfolding Moves when
Moves-when i true a h p e = h p e
Moves-when i false a h p e = (p, refl, e, ([], sym (append-nil p.out)))

pub Moves-with_directories :
    (i : ℕ) (created : Bool) → created ≡ true → Moves i i (with_directories created)
unfolding Moves with_directories
Moves-with_directories i true e p h = (p, refl, h, ([], sym (append-nil p.out)))
Moves-with_directories i false e p h = absurd (ground (arith, e))

pub when-then :
    (i j : ℕ) (b : Bool) (a c : Action) → Moves i i a → Moves i j c → Moves i j (when b a >> c)
when-then i j b a c ha h = Moves-then i i j (when b a) c (Moves-when i b a ha) h

abbrev pub AtEach : {A : Type 0} → (A → Type 0) → ℕ × A → Type 0
AtEach P x = P x.1

pub All-enumerate :
    {A : Type 0} (P : A → Type 0) (i : ℕ) (xs : List A) → All P xs → All (AtEach P) (enumerate i xs)
unfolding enumerate
All-enumerate P i [] v = tt
All-enumerate P i (x ∷ xs) v = (v.0, All-enumerate P (i + 1) xs v.1)

pub ends :
    (i j : ℕ) (a : Action) (p : Printer)
    → Moves i j a
    → p.indents ≡ i
    → (q : Printer) × (a p ≡ some q) × (q.indents ≡ j)
unfolding Moves
ends i j a p h e = let done = h p e in (done.0, done.1, done.2)

every : {A : Type 0} (xs : List A) → All (λ (x : A). Unit {0}) xs
every [] = tt
every (x ∷ xs) = (tt, every xs)

-- Where a step of the loop needs nothing of its element.
pub Moves-every :
    {A : Type 0} (i : ℕ) (xs : List A) (f : A → Action)
    → ((x : A) → Moves i i (f x))
    → Moves i i (for_each xs f)
Moves-every {A = A} i xs f hf = Moves-each {P = λ x. Unit {0}} i xs f (every xs) (λ x u. hf x)

-- One step and what follows it: each shape of a generator's body has one rule.
pub print-then : (i j : ℕ) (s : String) (b : Action) → Moves i j b → Moves i j (print s >> b)
print-then i j s b h = Moves-then i i j (print s) b (Moves-print i s) h

pub print_vars-then :
    (i j : ℕ) (vars : Vars) (s : String) (b : Action)
    → Clean vars
    → Moves i j b
    → Moves i j (print_vars vars s >> b)
print_vars-then i j vars s b c h =
    Moves-then i i j (print_vars vars s) b (Moves-print_vars i vars s c) h

pub indent-then : (i j : ℕ) (b : Action) → Moves (suc i) j b → Moves i j (indent >> b)
indent-then i j b h = Moves-then i (suc i) j indent b (Moves-indent i) h

pub outdent-then : (i j : ℕ) (b : Action) → Moves i j b → Moves (suc i) j (outdent >> b)
outdent-then i j b h = Moves-then (suc i) i j outdent b (Moves-outdent i) h

pub for_each-then :
    {A : Type 0} {P : A → Type 0} (i j : ℕ) (xs : List A) (f : A → Action) (b : Action)
    → All P xs
    → ((x : A) → P x → Moves i i (f x))
    → Moves i j b
    → Moves i j (for_each xs f >> b)
for_each-then i j xs f b v hf h = Moves-then i i j (for_each xs f) b (Moves-each i xs f v hf) h

-- For a step that is a function of the generator.
pub call-then : (i j : ℕ) (a b : Action) → Moves i i a → Moves i j b → Moves i j (a >> b)
call-then i j a b ha h = Moves-then i i j a b ha h

pub Clean-set :
    (key : String) (v : Text) (vars : Vars) → escapes v ≡ 0 → Clean vars → Clean (set key v vars)
unfolding Clean set
Clean-set key v vars e c = (e, c)

pub Clean-none : Clean []
unfolding Clean
Clean-none = tt

pub ruleset moves = (
  Moves-print, Moves-print_vars, Moves-indent, Moves-outdent, print-then, print_vars-then,
  indent-then, outdent-then, when-then, Clean-set, Clean-none,
)
