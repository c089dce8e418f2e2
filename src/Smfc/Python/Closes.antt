-- ===== src/Smfc/Python/Closes.antt =====
-- What src/smfc/python_generator.cc does to the printer, and the set of its imports.
use smf.Prelude.{
  Bool, true, ℕ, ◌≡◌, refl, ◌∙◌, ap, append_assoc, List, [], ◌∷◌, ◌++◌, Option, none, some, All,
  arith, Option-cases, inl, inr,
}
use smf.Smfc.Printer.{Text, codes, escapes, Printer, printer, enumerate}
use smf.Smfc.Names.{join, escapes-public_name, escapes-to_string, escapes_both}
use smf.Smfc.Schema.{Parser, Method, Service, python, type, output_type_name, services_of}
use smf.Smfc.Plain.{IsPlain, PlainMethod, PlainService, PlainParser, output-IsPlain, services-Plain}
use smf.Smfc.Balance.{
  Moves, Moves-with_directories, Moves-each, Moves-when, Moves-every, Moves-print_c_str, ends,
  call-then, All-enumerate, AtEach, moves,
}
use smf.Smfc.Python.{
  print_client_method, print_client, generate_header_prologue, before_point, insert, imports_of,
  all_imports, print_import, print_imports, generate_header_includes, generate_header_services, gen,
}

client-suffix : (s : Text) → IsPlain s → IsPlain (s ++ codes "Client")
unfolding escapes
client-suffix s e = escapes_both s (codes "Client") e refl

methods_at : (s : Service) → PlainService s → All (AtEach PlainMethod) (enumerate 0 s.methods)
methods_at s h = All-enumerate PlainMethod 0 s.methods h.methods

ruleset plain = (moves, client-suffix, escapes-public_name, escapes-to_string, output-IsPlain)

Moves-client_method : (i : ℕ) (m : Method) → PlainMethod m → Moves i i (print_client_method m)
unfolding print_client_method
Moves-client_method i m h = search (plain, h.name) depth 40 fits 4000

Moves-client : (i : ℕ) (s : Service) → PlainService s → Moves i i (print_client s)
unfolding print_client
Moves-client i s h =
    search (plain, Moves-client_method, Moves-each, Moves-when, call-then, methods_at, h.name) depth
      40 fits 4000

point_found : (c : ℕ) (s : Text) → (t : Text) × (before_point (b'.' ∷ s) ≡ some t)
unfolding before_point
point_found c s = elim (Option-cases (before_point s)) [
  | inl gone ↦ ([], ground arith)
  | inr (t, found) ↦ (b'.' ∷ t, ground arith)
]

point_after :
    (s r t : Text) → before_point r ≡ some t → (u : Text) × (before_point (s ++ r) ≡ some u)
unfolding before_point
point_after [] r t e = (t, e)
point_after (c ∷ s) r t e = let rest = point_after s r t e in (c ∷ rest.0, ground (arith, rest.1))

-- A joined name of two parts or more has a point.
join_has_point :
    (ts : List Text) (a b : Text)
    → (t : Text) × (before_point (join (codes ".") (ts ++ a ∷ b ∷ [])) ≡ some t)
unfolding join
join_has_point [] a b =
    let found = point_found 0 b in
    let after = point_after a (b'.' ∷ b) found.0 found.1 in
    (after.0, ap before_point (append_assoc a (codes ".") b) ∙ after.1)
join_has_point (t ∷ []) a b =
    let rest = join_has_point [] a b in point_after (t ++ codes ".") _ rest.0 rest.1
join_has_point (t ∷ u ∷ ts) a b =
    let rest = join_has_point (u ∷ ts) a b in point_after (t ++ codes ".") _ rest.0 rest.1

type_has_point : (m : Method) → (t : Text) × (before_point (output_type_name python m) ≡ some t)
unfolding output_type_name type
type_has_point m = join_has_point m.response.components m.response.name m.response.name

imports_exist :
    (ms : List Method) (imports : List Text) → (r : List Text) × (imports_of ms imports ≡ some r)
unfolding imports_of
imports_exist [] imports = (imports, refl)
imports_exist (m ∷ ms) imports =
    let one = type_has_point m in
    let rest = imports_exist ms (insert one.0 imports) in
    (
      rest.0,
      ap (λ o. elim o [ none ↦ none | some t ↦ imports_of ms (insert t imports) ]) one.1 ∙ rest.1,
    )

pub all_imports_exist :
    (ss : List Service) (imports : List Text) → (r : List Text) × (all_imports ss imports ≡ some r)
unfolding all_imports
all_imports_exist [] imports = (imports, refl)
all_imports_exist (s ∷ ss) imports =
    let one = imports_exist s.methods imports in
    let rest = all_imports_exist ss one.0 in
    (rest.0, ap (λ o. elim o [ none ↦ none | some r ↦ all_imports ss r ]) one.1 ∙ rest.1)

Moves-import : (i : ℕ) (t : Text) → Moves i i (print_import t)
unfolding print_import
Moves-import i t = search (moves, call-then, Moves-print_c_str)

Moves-imports :
    (i : ℕ) (o : Option (List Text)) (r : List Text) → o ≡ some r → Moves i i (print_imports o)
unfolding print_imports
Moves-imports i none r e = ground arith
Moves-imports i (some imports) r e = Moves-every i imports print_import (Moves-import i)

Moves-includes : (i : ℕ) (ss : List Service) → Moves i i (generate_header_includes ss)
unfolding generate_header_includes
Moves-includes i ss =
    let r = all_imports_exist ss [] in
    search (moves, call-then, Moves-imports i (all_imports ss []) r.0 r.1)

Moves-prologue : (i : ℕ) (file : Text) → IsPlain file → Moves i i (generate_header_prologue file)
unfolding generate_header_prologue
Moves-prologue i file e = search (moves) depth 40

Moves-services :
    (i : ℕ) (ss : List Service) → All PlainService ss → Moves i i (generate_header_services ss)
unfolding generate_header_services
Moves-services i ss h = search (Moves-each, Moves-client)

-- For a schema and an input file name that hold no escape character, whatever crc32 computes, if
-- the directories of the namespace can be made, which an empty one prevents, the Python generator
-- returns, and every indentation that it opens is closed.
pub gen_python-closes :
    (create_directories : Text → Bool) (crc32 : Text → ℕ) (file : Text) (p : Parser)
    → IsPlain file
    → PlainParser p
    → create_directories (join (codes "/") p.package_parts) ≡ true
    → (q : Printer) × (gen create_directories crc32 file p ≡ some q) × (q.indents ≡ 0)
unfolding gen
gen_python-closes create_directories crc32 file p e h created =
    let ss = services_of crc32 p.services in
    ends 0 0 _ (printer b' ' 4)
      (call-then 0 0 _ _ (Moves-prologue 0 file e) (
        call-then 0 0 _ _ (Moves-includes 0 ss) (
          call-then 0 0 _ _ (Moves-services 0 ss (services-Plain crc32 p.services h.services))
            (Moves-with_directories 0 _ created))))
      refl
