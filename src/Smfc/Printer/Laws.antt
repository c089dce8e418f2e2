-- ===== src/Smfc/Printer/Laws.antt =====
-- The substitution loop ends, and printing in pieces is printing at once.
use smf.Prelude.{
  ℕ, zero, suc, ◌+◌, ◌*◌, ◌<◌, ◌≡◌, refl, Bool, true, false, [], ◌∷◌, ◌++◌, append_assoc, Option,
  none, some, arith, replicate, Option-cases, sym, ◌∙◌, ap, inl, inr, ◌==◌, if◌then◌else◌,
}
use smf.Smfc.Printer.{
  Text, Vars, lookup, split_escape, substitute_once, substitute, with_value, closed, opened,
  escapes, Printer, is_empty, indented, print_text,
}

pub escapes-append : (s t : Text) → escapes (s ++ t) ≡ escapes s + escapes t
unfolding escapes
escapes-append [] t = ground arith
escapes-append (c ∷ s) t = ground (arith, escapes-append s t)

-- No value brings a new escape character.
unfoldable pub Clean : Vars → Type 0
Clean [] = Unit {0}
Clean ((k, v) ∷ vars) = (escapes v ≡ 0) × Clean vars

lookup-Clean : (vars : Vars) (key v : Text) → Clean vars → lookup key vars ≡ some v → escapes v ≡ 0
unfolding Clean lookup
lookup-Clean [] key v h e = ground arith
lookup-Clean ((k, w) ∷ vars) key v h e = ground (arith, lookup-Clean vars key v h.1)

escapes-split :
    (s a b : Text) → split_escape s ≡ some (a, b) → (escapes a ≡ 0) × (escapes s ≡ suc (escapes b))
unfolding split_escape escapes
escapes-split [] a b e = ground arith
escapes-split (c ∷ s) a b e = elim (Option-cases (split_escape s)) [
  | inl gone ↦ ground arith
  | inr (r, found) ↦ ground (arith, escapes-split s r.0 r.1 found)
]

some-escapes : (s t : Text) → some s ≡ some t → escapes s ≡ escapes t
some-escapes s t e = ap (λ o. elim o [ none ↦ 0 | some u ↦ escapes u ]) e

escapes-with_value :
    (before after s' : Text) (o : Option Text)
    → ((v : Text) → o ≡ some v → escapes v ≡ 0)
    → escapes before ≡ 0
    → with_value before o after ≡ some s'
    → escapes s' ≡ escapes after
unfolding with_value
escapes-with_value before after s' none h b e = ground arith
escapes-with_value before after s' (some v) h b e = ground (
  arith,
  h v refl,
  some-escapes (before ++ v ++ after) s' e,
  escapes-append (before ++ v) after,
  escapes-append before v,
)

escapes-closed :
    (vars : Vars) (before s s' : Text) (o : Option (Text × Text))
    → Clean vars
    → escapes before ≡ 0
    → split_escape s ≡ o
    → closed vars before o ≡ some s'
    → escapes s ≡ escapes s' + 1
unfolding closed
escapes-closed vars before s s' none h b q e = ground arith
escapes-closed vars before s s' (some (key, after)) h b q e = omega (
  arith,
  (escapes-split s key after q).1,
  escapes-with_value before after s' (lookup key vars) (λ v. lookup-Clean vars key v h) b e,
)

escapes-opened :
    (vars : Vars) (s s' : Text) (o : Option (Text × Text))
    → Clean vars
    → split_escape s ≡ o
    → opened vars o ≡ some s'
    → escapes s ≡ escapes s' + 2
unfolding opened
escapes-opened vars s s' none h q e = ground arith
escapes-opened vars s s' (some (before, rest)) h q e =
    let halves = escapes-split s before rest q in
    omega
      (arith, halves.1, escapes-closed vars before rest s' (split_escape rest) h halves.0 refl e)

-- One round takes two escape characters away.
escapes-once :
    (vars : Vars) (s s' : Text)
    → Clean vars
    → substitute_once vars s ≡ some s'
    → escapes s ≡ escapes s' + 2
unfolding substitute_once
escapes-once vars s s' h e = escapes-opened vars s s' (split_escape s) h refl e

-- Where no value holds the escape character, the substitution loop ends within as many tests as the
-- template has escape characters, and one more.
pub substitute-ends :
    (n : ℕ) (vars : Vars) (s : Text)
    → Clean vars
    → escapes s < n
    → (t : Text) × (substitute n vars s ≡ some t)
unfolding substitute
substitute-ends zero vars s h lt = ground arith
substitute-ends (suc n) vars s h lt = elim (Option-cases (substitute_once vars s)) [
  | inl stops ↦ (s, ground arith)
  | inr (s', goes) ↦
      let rest = substitute-ends n vars s' h (omega (arith, escapes-once vars s s' h goes)) in
      (rest.0, ground (arith, rest.1))
]

suc_add : (n m : ℕ) → suc n + m ≡ suc (n + m)
suc_add n m = omega arith

-- A substitution that ends gives the same text however many more tests are allowed.
pub substitute_more :
    (n m : ℕ) (vars : Vars) (s t : Text)
    → substitute n vars s ≡ some t
    → substitute (n + m) vars s ≡ some t
unfolding substitute
substitute_more zero m vars s t e = ground arith
substitute_more (suc n) m vars s t e = elim (Option-cases (substitute_once vars s)) [
  | inl stops ↦ rw (suc_add n m) (ground arith)
  | inr (s', goes) ↦ rw (suc_add n m) (ground (arith, substitute_more n m vars s' t))
]

-- `true` where a text ends with a line feed.
unfoldable pub ends_line : Text → Bool
unfolding is_empty
ends_line [] = false
ends_line (c ∷ s) = let rest = ends_line s in if is_empty s then c == b'\n' else rest

indented-cons :
    (pad s : Text) (c d : ℕ)
    → indented pad (c ∷ d ∷ s)
      ≡ (if c == b'\n' then c ∷ pad ++ indented pad (d ∷ s) else c ∷ indented pad (d ∷ s))
unfolding indented is_empty
indented-cons pad s c d = ground arith

ends_line-cons : (s : Text) (c d : ℕ) → ends_line (c ∷ d ∷ s) ≡ ends_line (d ∷ s)
unfolding ends_line is_empty
ends_line-cons s c d = ground arith

no_line :
    (pad t : Text) → ends_line [] ≡ true → indented pad t ≡ indented pad [] ++ pad ++ indented pad t
unfolding ends_line
no_line pad t e = ground arith

one_line :
    (pad : Text) (c : ℕ) (t : Text)
    → ends_line (c ∷ []) ≡ true
    → is_empty t ≡ false
    → indented pad (c ∷ t) ≡ indented pad (c ∷ []) ++ pad ++ indented pad t
unfolding indented ends_line is_empty
one_line pad c t e f = ground arith

indented-append :
    (pad s t : Text)
    → ends_line s ≡ true
    → is_empty t ≡ false
    → indented pad (s ++ t) ≡ indented pad s ++ pad ++ indented pad t
indented-append pad [] t e f = no_line pad t e
indented-append pad (c ∷ []) t e f = one_line pad c t e f
indented-append pad (c ∷ d ∷ s) t e f =
    rw (indented-cons pad s c d, indented-cons pad (s ++ t) c d)
      (ground (
        arith,
        indented-append pad (d ∷ s) t (sym (ends_line-cons s c d) ∙ e) f,
        append_assoc pad (indented pad (d ∷ s) ++ pad) (indented pad t),
        append_assoc pad (indented pad (d ∷ s)) pad,
      ))

-- Printing a text that ends its line and then a text that is not empty is printing the two
-- together: each line gets the same indentation.
print-append :
    (s t : Text) (p : Printer)
    → ends_line s ≡ true
    → is_empty t ≡ false
    → print_text t (print_text s p) ≡ print_text (s ++ t) p
unfolding print_text
print-append s t p e f =
    let pad = replicate (p.indents * p.indent_step) p.indent_char in
    let before = p.out ++ pad in
    ground (
      arith,
      indented-append pad s t e f,
      append_assoc before (indented pad s ++ pad) (indented pad t),
      append_assoc before (indented pad s) pad,
    )
