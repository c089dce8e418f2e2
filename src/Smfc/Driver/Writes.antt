-- ===== src/Smfc/Driver/Writes.antt =====
-- Which files a run of smfc writes.
use smf.Prelude.{
  ◌≡◌, refl, ap, ◌∙◌, sym, Bool, true, false, List, [], ◌∷◌, ◌++◌, append_assoc, append-nil, map,
  Option, none, some, arith, All,
}
use smf.Smfc.Printer.{Text, codes, Printer}
use smf.Smfc.Names.{join}
use smf.Smfc.Schema.{Parser, Language, cpp, go, python}
use smf.Smfc.Plain.{IsPlain, PlainParser}
use smf.Smfc.Cpp.Closes.{gen_cpp-closes}
use smf.Smfc.Go.Balanced.{gen_go-closes}
use smf.Smfc.Python.Closes.{gen_python-closes}
use smf.Smfc.Driver.{Codegen, Files, Platform, parse, generated, gen_languages, output_filename}

-- The languages that have a generator.
abbrev pub targets : List (Option Language) → List Language
targets [] = []
targets (none ∷ ls) = targets ls
targets (some l ∷ ls) = l ∷ targets ls

module _ (p : Platform) where
  -- What a language needs of the schema's namespace: its directories can be made, and Go has to name
  -- its package.
  abbrev pub HasPackage : Language → Parser → Type 0
  HasPackage cpp schema = Unit {0}
  HasPackage go schema =
      (t : Text) × (ts : List Text) × (schema.package_parts ≡ t ∷ ts)
      × (p.create_directories (join (codes "/") schema.package_parts) ≡ true)
  HasPackage python schema = p.create_directories (join (codes "/") schema.package_parts) ≡ true

  generated-returns :
      (l : Language) (c : Codegen)
      → IsPlain c.input_filename
      → PlainParser c.parser
      → HasPackage l c.parser
      → (q : Printer) × (generated p l c ≡ some q)
  unfolding generated
  generated-returns cpp c e h n =
      let r = gen_cpp-closes p.crc32 c.input_filename c.parser e h in (r.0, r.1)
  generated-returns go c e h (t, ts, named, created) =
      let r =
        gen_go-closes p.create_directories p.crc32 c.input_filename c.parser t ts e h named
          created in
      (r.0, r.1)
  generated-returns python c e h created =
      let r =
        gen_python-closes p.create_directories p.crc32 c.input_filename c.parser e h created in
      (r.0, r.1)

  one_more :
      (l : Language) (ls : List (Option Language)) (c : Codegen) (files : Files) (q : Printer)
      → generated p l c ≡ some q
      → p.save (output_filename p l c) q.out ≡ true
      → gen_languages p (some l ∷ ls) c files
        ≡ gen_languages p ls c (files ++ (output_filename p l c, q.out) ∷ [])
  unfolding gen_languages
  one_more l ls c files q g s =
      let name = output_filename p l c in
      let failure = codes "Could not create filename: " ++ name in
      let on_save : Text → Bool → Option (Option Text × Files) = λ out b. elim b [
        | false ↦ some (some failure, files)
        | true ↦ gen_languages p ls c (files ++ (name, out) ∷ [])
      ] in
      ap
        (λ (o : Option Printer). elim o as (λ x. Option (Option Text × Files)) [
          | none ↦ none
          | some r ↦ on_save r.out (p.save name r.out)
        ])
        g
      ∙ ap (on_save q.out) s

  -- For a schema whose namespace suits the languages, which holds no escape character, as the file
  -- name holds none, where every file can be saved, the generators all return without an error and write one file for each language that has a
  -- generator, in the order of the languages and under the name of that language, after the files
  -- that were there.
  pub gen_languages-writes :
      (ls : List (Option Language)) (c : Codegen) (files : Files)
      → IsPlain c.input_filename
      → PlainParser c.parser
      → All (λ l. HasPackage l c.parser) (targets ls)
      → ((name contents : Text) → p.save name contents ≡ true)
      → (written : Files) × (gen_languages p ls c files ≡ some (none, files ++ written))
        × (map (λ f. f.0) written ≡ map (λ l. output_filename p l c) (targets ls))
  unfolding gen_languages
  gen_languages-writes [] c files e h n s =
      ([], ap (λ fs. some (none, fs)) (sym (append-nil files)), refl)
  gen_languages-writes (none ∷ ls) c files e h n s = gen_languages-writes ls c files e h n s
  gen_languages-writes (some l ∷ ls) c files e h n s =
      let out = generated-returns l c e h n.0 in
      let file : Text × Text = (output_filename p l c, out.0.out) in
      let rest = gen_languages-writes ls c (files ++ file ∷ []) e h n.1 s in
      (
        file ∷ rest.0,
        one_more l ls c files out.0 out.1 (s _ _)
            ∙ rest.1
            ∙ ap (λ fs. some (none, fs)) (append_assoc files (file ∷ []) rest.0),
        ap (λ names. output_filename p l c ∷ names) rest.2,
      )

  -- A file that cannot be loaded is an error of the first `parse` of a fresh generator alone: the
  -- second one reports success, with the schema as it was.
  pub load_error_is_forgotten :
      (c : Codegen)
      → c.parsed ≡ false
      → c.error ≡ []
      → p.load c.input_filename ≡ none
      → let first = parse p c in
        let second = parse p first.1 in
        (first.0 ≡ some (codes "Could not load file: " ++ c.input_filename))
        × (second.0 ≡ none)
        × (second.1.parser ≡ c.parser)
  unfolding parse
  load_error_is_forgotten c fresh clean missing = ground arith
