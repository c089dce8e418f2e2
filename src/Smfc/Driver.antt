-- ===== src/Smfc/Driver.antt =====
-- src/smfc/codegen.cc, and the list of languages that src/smfc/main.cc reads.
pub mod Languages
pub mod Writes
pub mod Main
use smf.Prelude.{
  ℕ, ◌+◌, Bool, true, false, not, ◌&&◌, ◌||◌, List, [], ◌∷◌, ◌++◌, Option, none, some, inl, inr,
  ◌⊎◌, length, leb, ◌==◌, if◌then◌else◌,
}
use smf.Smfc.Printer.{Text, codes, same, is_empty, Printer}
use smf.Smfc.Schema.{Parser, Language, cpp, go, python}
use smf.Smfc.Cpp.Gen
use smf.Smfc.Go
use smf.Smfc.Python

-- A parser that has read nothing. The base name is the input file's in every schema.
abbrev pub no_schema : (base_name : Text) → Parser
no_schema base_name = record {
  services = [];
  package_name = [];
  package_parts = [];
  included_files = [];
  base_name = base_name;
}

-- `languages` has `none` for the two values that no generator belongs to.
pub record Codegen : Type 0 where
  pub input_filename : Text
  pub output_dir : Text
  pub languages : List (Option Language)
  pub include_dirs : List Text
  pub parsed : Bool
  pub error : Text
  pub parser : Parser

-- The files that were saved, with their contents, the first one first.
abbrev pub Files : Type 0
Files = List (Text × Text)

contains : Text → List Text → Bool
unfolding same
contains t [] = false
contains t (u ∷ us) = let rest = contains t us in same u t || rest

-- `none` where a CHECK ends the program.
unfoldable pub codegen :
    (strip_file_name strip_path_and_extension : Text → Text) (ifname out_dir : Text)
    → (includes : List Text) (langs : List (Option Language)) → Option Codegen
unfolding contains is_empty
codegen strip_file_name strip_path_and_extension ifname out_dir includes [] = none
codegen strip_file_name strip_path_and_extension ifname out_dir includes (l ∷ ls) =
    if is_empty out_dir
    then none
    else some (record {
      input_filename = ifname;
      output_dir = out_dir;
      languages = l ∷ ls;
      include_dirs =
          if contains ifname includes then includes else includes ++ strip_file_name ifname ∷ [];
      parsed = false;
      error = [];
      parser = no_schema (strip_path_and_extension ifname);
    })

-- Before `parse` there are no services to count.
unfoldable pub service_count : Codegen → ℕ
service_count c = if c.parsed then length c.parser.services else 0

-- The file system and the parser of flatbuffers: `load` reads a file, `parse_schema` gives an error
-- text or a schema, `create_directories` is false where it throws, `save` tells whether a file was
-- written, and crc32 is boost's.
pub record Platform : Type 0 where
  pub load : Text → Option Text
  pub parse_schema : (contents : Text) (include_dirs : List Text) (filename : Text) → Text ⊎ Parser
  pub create_directories : Text → Bool
  pub save : (filename contents : Text) → Bool
  pub crc32 : Text → ℕ

module _ (p : Platform) where
  parsed_schema : Text ⊎ Parser → Codegen → Option Text × Codegen
  parsed_schema (inl e) c = (some (codes "Could not PARSE file: " ++ e), record c { error = e })
  parsed_schema (inr schema) c = (none, record c { parser = schema })

  loaded : Option Text → Codegen → Option Text × Codegen
  unfolding parsed_schema
  loaded none c = (some (codes "Could not load file: " ++ c.input_filename), c)
  loaded (some contents) c =
      parsed_schema (p.parse_schema contents c.include_dirs c.input_filename) c

  -- The error, if there is one.
  unfoldable pub parse : Codegen → Option Text × Codegen
  unfolding loaded is_empty
  parse c =
      if c.parsed
      then (if not (is_empty c.error)
          then (some (codes "Parser in error state: " ++ c.error), c)
          else (none, c))
      else loaded (p.load c.input_filename) (record c { parsed = true })

  folders : List Text → Text
  folders [] = []
  folders (t ∷ ts) = t ++ codes "/" ++ folders ts

  unfoldable pub output_filename : Language → Codegen → Text
  unfolding folders
  output_filename cpp c = c.output_dir ++ codes "/" ++ c.parser.base_name ++ codes ".smf.fb.h"
  output_filename go c =
      c.output_dir
      ++ codes "/"
      ++ folders c.parser.package_parts
      ++ c.parser.base_name
      ++ codes ".smf.fb.go"
  output_filename python c =
      c.output_dir
      ++ codes "/"
      ++ folders c.parser.package_parts
      ++ c.parser.base_name
      ++ codes "_smf_client.py"

  unfoldable pub generated : Language → Codegen → Option Printer
  unfolding Gen.gen Go.gen Python.gen
  generated cpp c = Gen.gen p.crc32 c.input_filename c.parser
  generated go c = Go.gen p.create_directories p.crc32 c.input_filename c.parser
  generated python c = Python.gen p.create_directories p.crc32 c.input_filename c.parser

  -- The error of `gen`, if there is one, and the files; `none` where a generator loops, throws
  -- or is undefined.
  unfoldable pub gen_languages :
      List (Option Language) → Codegen → Files → Option (Option Text × Files)
  unfolding output_filename
  gen_languages [] c files = some (none, files)
  gen_languages (none ∷ ls) c files = gen_languages ls c files
  gen_languages (some l ∷ ls) c files = elim (generated l c) [
    | none ↦ none
    | some q ↦ elim (p.save (output_filename l c) q.out) [
      | false ↦ some (some (codes "Could not create filename: " ++ output_filename l c), files)
      | true ↦ gen_languages ls c (files ++ (output_filename l c, q.out) ∷ [])
    ]
  ]

  after_parse : Option Text × Codegen → Files → Option (Option Text × Files)
  unfolding gen_languages
  after_parse (some e, c) files = some (some e, files)
  after_parse (none, c) files = gen_languages c.languages c files

  unfoldable pub gen : Codegen → Files → Option (Option Text × Files)
  unfolding parse after_parse
  gen c files = after_parse (parse c) files
