-- ===== src/Smfc/Driver/Main.antt =====
-- `main` of src/smfc/main.cc, after its flags were read.
use smf.Prelude.{
  ℕ, ◌≡◌, refl, ap, ◌∙◌, Bool, true, false, not, List, [], ◌∷◌, ◌++◌, map, Option, none, some, inr,
  arith, All, if◌then◌else◌,
}
use smf.Smfc.Printer.{Text, codes, is_empty}
use smf.Smfc.Names.{join}
use smf.Smfc.Schema.{Language, Parser}
use smf.Smfc.Plain.{IsPlain, PlainParser}
use smf.Smfc.Driver.{
  Codegen, Files, Platform, contains, codegen, parse, gen, gen_languages, output_filename,
  parsed_schema, loaded, after_parse,
}
use smf.Smfc.Driver.Languages.{split_coma, split_langs, language_name, split_langs-join}
use smf.Smfc.Driver.Writes.{HasPackage, targets, gen_languages-writes}

pub record Flags : Type 0 where
  pub filename : Text
  pub include_dirs : Text
  pub language : Text
  pub output_path : Text

-- What is called of boost::filesystem and of flatbuffers' utilities; `canonical` throws for a path
-- that is not there.
pub record Paths : Type 0 where
  pub exists : Text → Bool
  pub canonical : Text → Option Text
  pub dir_exists : Text → Bool
  pub strip_file_name : Text → Text
  pub strip_path_and_extension : Text → Text

-- How the program ends, with the files that were saved.
pub data Ended : Type 0 where
  exits : (code : ℕ) → Files → Ended
  -- a failed CHECK or an exception that nobody catches
  aborts : Ended
  -- a generator loops, throws what nobody catches, or its behaviour is undefined
  lost : Ended

module _ (p : Platform) (paths : Paths) where
  generated_all : Option (Option Text × Files) → Ended
  generated_all none = lost
  generated_all (some (none, files)) = exits 0 files
  generated_all (some (some error, files)) = exits 1 files

  -- That there are no services is logged, and changes nothing.
  parsed_once : Option Text × Codegen → Ended
  unfolding generated_all
  parsed_once (some error, c) = exits 1 []
  parsed_once (none, c) = generated_all (gen p c [])

  generate : Option Codegen → Ended
  unfolding parsed_once
  generate none = aborts
  generate (some c) = parsed_once (parse p c)

  into : Flags → Option Text → Ended
  unfolding generate
  into flags none = aborts
  into flags (some output_path) =
      if not (paths.dir_exists output_path)
      then exits 1 []
      else generate (
          codegen paths.strip_file_name paths.strip_path_and_extension flags.filename output_path
            (split_coma flags.include_dirs) (map some (split_langs flags.language)))

  unfoldable pub main : Flags → Ended
  unfolding into
  main flags =
      if is_empty flags.filename
      then exits 1 []
      else if not (paths.exists flags.filename)
      then exits 1 []
      else if is_empty flags.output_path
      then exits 1 []
      else into flags (paths.canonical flags.output_path)

targets-some : (ls : List Language) → targets (map some ls) ≡ ls
targets-some [] = refl
targets-some (l ∷ ls) = ap (λ (xs : List Language). l ∷ xs) (targets-some ls)

module _ (p : Platform) (paths : Paths) (flags : Flags) (contents out : Text) (schema : Parser)
    (l : Language) (ls : List Language) where
  parse_fresh :
      (c : Codegen)
      → c.parsed ≡ false
      → p.load c.input_filename ≡ some contents
      → p.parse_schema contents c.include_dirs c.input_filename ≡ inr schema
      → parse p c ≡ (none, record c { parsed = true; parser = schema })
  unfolding parse loaded parsed_schema
  parse_fresh c fresh there good = ground (arith, there, good)

  parse_again : (c : Codegen) → c.parsed ≡ true → c.error ≡ [] → parse p c ≡ (none, c)
  unfolding parse is_empty
  parse_again c again clean = ground (arith, clean)

  -- The object that `main` makes, and the object once it has parsed.
  abbrev made : List Text → Codegen
  made include_dirs = record {
    input_filename = flags.filename;
    output_dir = out;
    languages = map some (l ∷ ls);
    include_dirs = include_dirs;
    parsed = false;
    error = [];
    parser = smf.Smfc.Driver.no_schema (paths.strip_path_and_extension flags.filename);
  }

  abbrev searched : List Text
  searched =
      if contains flags.filename (split_coma flags.include_dirs)
      then split_coma flags.include_dirs
      else split_coma flags.include_dirs ++ paths.strip_file_name flags.filename ∷ []

  codegen-made :
      is_empty out ≡ false
      → codegen paths.strip_file_name paths.strip_path_and_extension flags.filename out
          (split_coma flags.include_dirs)
          (map some (l ∷ ls))
        ≡ some (made searched)
  unfolding codegen
  codegen-made some_out = rw some_out refl

  generate-made :
      (dirs : List Text)
      → p.load flags.filename ≡ some contents
      → p.parse_schema contents dirs flags.filename ≡ inr schema
      → generate p paths (some (made dirs))
        ≡ generated_all p paths (
            gen_languages p
              (map some (l ∷ ls))
              (record (made dirs) { parsed = true; parser = schema })
              [])
  unfolding generate parsed_once gen after_parse
  generate-made dirs there good =
      ap (parsed_once p paths) (parse_fresh (made dirs) refl there good)
      ∙ ap (λ r. generated_all p paths (after_parse p r []))
          (parse_again (record (made dirs) { parsed = true; parser = schema }) refl refl)

  main-generates :
      is_empty flags.filename ≡ false
      → paths.exists flags.filename ≡ true
      → is_empty flags.output_path ≡ false
      → paths.canonical flags.output_path ≡ some out
      → paths.dir_exists out ≡ true
      → main p paths flags
        ≡ generate p paths (
            codegen paths.strip_file_name paths.strip_path_and_extension flags.filename out
              (split_coma flags.include_dirs)
              (map some (split_langs flags.language)))
  unfolding main into
  main-generates named there placed canonical is_dir =
      rw (named, there, placed, canonical) (rw is_dir refl)

  -- When the input file is there and is a schema without escape characters, the output directory is
  -- there, the languages are a list of names with commas between them, the directories of the
  -- namespace can be made for Go and Python, there is a namespace for Go, and every file can be
  -- saved, smfc exits with 0 and has written one file for each language of the list, in its order,
  -- under the names that the schema and the output directory give.
  pub main-writes :
      is_empty flags.filename ≡ false
      → paths.exists flags.filename ≡ true
      → is_empty flags.output_path ≡ false
      → paths.canonical flags.output_path ≡ some out
      → is_empty out ≡ false
      → paths.dir_exists out ≡ true
      → flags.language ≡ join (codes ",") (map language_name (l ∷ ls))
      → p.load flags.filename ≡ some contents
      → ((dirs : List Text) → p.parse_schema contents dirs flags.filename ≡ inr schema)
      → IsPlain flags.filename
      → PlainParser schema
      → All (λ lang. HasPackage p lang schema) (l ∷ ls)
      → ((name text : Text) → p.save name text ≡ true)
      → (c : Codegen) × (written : Files) × (main p paths flags ≡ exits 0 written)
        × (c.output_dir ≡ out)
        × (c.parser ≡ schema)
        × (map (λ f. f.0) written ≡ map (λ lang. output_filename p lang c) (l ∷ ls))
  unfolding generated_all
  main-writes named there placed canonical some_out is_dir language loads parses plain plain_schema
        packages saves =
      let c = record (made searched) { parsed = true; parser = schema } in
      let (written, wrote, names) =
        gen_languages-writes p (map some (l ∷ ls)) c [] plain plain_schema
          (packages.0, rw (targets-some ls) packages.1) saves in
      (
        c,
        written,
        main-generates named there placed canonical is_dir
            ∙ ap
                (λ langs. generate p paths (
                  codegen paths.strip_file_name paths.strip_path_and_extension flags.filename out
                    (split_coma flags.include_dirs) (map some langs)))
                (ap split_langs language ∙ split_langs-join l ls)
            ∙ ap (generate p paths) (codegen-made some_out)
            ∙ generate-made searched loads (parses searched)
            ∙ ap (generated_all p paths) wrote,
        refl,
        refl,
        names ∙ ap (map (λ lang. output_filename p lang c)) (targets-some (l ∷ ls)),
      )
