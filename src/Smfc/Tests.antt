-- ===== src/Smfc/Tests.antt =====
-- The generators at a small schema.
use smf.Prelude.{Bool, not, ℕ, ◌≡◌, ◌<◌, refl, false, true, [], ◌∷◌, map, some, inr, arith, length}
use smf.Smfc.Printer.{Text, codes, Vars, substitute, escapes, Printer, is_empty}
use smf.Smfc.Printer.Laws.{Clean, substitute-ends}
use smf.Smfc.Python.{all_imports}
use smf.Smfc.Names.{join}
use smf.Smfc.Driver.{Codegen, Files, Platform, output_filename}
use smf.Smfc.Driver.Languages.{split_langs, split_langs-join, language_name}
use smf.Smfc.Driver.Main.{Flags, Paths, exits, main, main-writes}
use smf.Smfc.Schema.{cpp, go, python, StructDef, RpcCall, ServiceDef, Parser}
use smf.Smfc.Plain.{IsPlain, PlainStruct, PlainCall, PlainDef, PlainParser}
use smf.Smfc.Cpp.Gen
use smf.Smfc.Cpp.Closes.{gen_cpp-closes}
use smf.Smfc.Go
use smf.Smfc.Go.Balanced.{gen_go-closes}
use smf.Smfc.Python
use smf.Smfc.Python.Closes.{gen_python-closes}

abbrev get_request : StructDef
get_request = record { name = codes "Request"; components = codes "demo" ∷ [] }

abbrev get_call : RpcCall
get_call = record { name = codes "Get"; request = get_request; response = get_request }

abbrev storage : ServiceDef
storage = record {
  name = codes "SmfStorage";
  components = codes "demo" ∷ [];
  calls = get_call ∷ [];
  generated = false;
}

abbrev demo : Parser
demo = record {
  services = storage ∷ [];
  package_name = codes "demo";
  package_parts = codes "demo" ∷ [];
  included_files = codes "demo.fbs" ∷ [];
  base_name = codes "demo";
}

abbrev any_crc32 : Text → ℕ
any_crc32 t = length t

-- An empty path is no directory.
abbrev any_directory : Text → Bool
any_directory t = not (is_empty t)

demo_made : any_directory (join (codes "/") demo.package_parts) ≡ true
unfolding is_empty join
demo_made = refl

request-PlainStruct : PlainStruct get_request
unfolding escapes
request-PlainStruct = record { name = refl; components = (refl, tt) }

call-PlainCall : PlainCall get_call
unfolding escapes
call-PlainCall = record {
  name = refl;
  request = request-PlainStruct;
  response = request-PlainStruct;
}

storage-PlainDef : PlainDef storage
unfolding escapes
storage-PlainDef = record { name = refl; components = (refl, tt); calls = (call-PlainCall, tt) }

demo-PlainParser : PlainParser demo
unfolding escapes
demo-PlainParser = record {
  services = (storage-PlainDef, tt);
  package_parts = (refl, tt);
  included_files = (refl, tt);
  base_name = refl;
}

file-IsPlain : IsPlain (codes "demo.fbs")
unfolding escapes
file-IsPlain = refl

gen_cpp-closes_example :
    (q : Printer) × (Gen.gen any_crc32 (codes "demo.fbs") demo ≡ some q) × (q.indents ≡ 0)
gen_cpp-closes_example =
    gen_cpp-closes any_crc32 (codes "demo.fbs") demo file-IsPlain demo-PlainParser

gen_go-closes_example :
    (q : Printer) × (Go.gen any_directory any_crc32 (codes "demo.fbs") demo ≡ some q)
    × (q.indents ≡ 0)
gen_go-closes_example =
    gen_go-closes any_directory any_crc32 (codes "demo.fbs") demo (codes "demo") [] file-IsPlain
      demo-PlainParser refl demo_made

gen_python-closes_example :
    (q : Printer) × (Python.gen any_directory any_crc32 (codes "demo.fbs") demo ≡ some q)
    × (q.indents ≡ 0)
gen_python-closes_example =
    gen_python-closes any_directory any_crc32 (codes "demo.fbs") demo file-IsPlain demo-PlainParser
      demo_made

abbrev sample_vars : Vars
sample_vars = (codes "part", codes "demo") ∷ []

sample_vars-Clean : Clean sample_vars
unfolding Clean escapes
sample_vars-Clean = (refl, tt)

few_escapes : escapes (codes "a $part$") < 3
unfolding escapes
few_escapes = omega arith

substitute-ends_example : (t : Text) × (substitute 3 sample_vars (codes "a $part$") ≡ some t)
substitute-ends_example =
    substitute-ends 3 sample_vars (codes "a $part$") sample_vars-Clean few_escapes

split_langs-join_example : split_langs (codes "go,cpp,python") ≡ go ∷ cpp ∷ python ∷ []
unfolding join
split_langs-join_example = split_langs-join go (cpp ∷ python ∷ [])

abbrev sample_driver : Platform
sample_driver = record {
  load = λ file. some (codes "schema");
  parse_schema = λ contents dirs file. inr demo;
  create_directories = any_directory;
  save = λ name contents. true;
  crc32 = any_crc32;
}

abbrev sample_paths : Paths
sample_paths = record {
  exists = λ path. true;
  canonical = λ path. some (codes "/out");
  dir_exists = λ path. true;
  strip_file_name = λ path. codes ".";
  strip_path_and_extension = λ path. codes "demo";
}

abbrev sample_flags : Flags
sample_flags = record {
  filename = codes "demo.fbs";
  include_dirs = codes "a,b";
  language = codes "cpp,python";
  output_path = codes "out";
}

file_named : is_empty (codes "demo.fbs") ≡ false
unfolding is_empty
file_named = refl

path_named : is_empty (codes "out") ≡ false
unfolding is_empty
path_named = refl

out_named : is_empty (codes "/out") ≡ false
unfolding is_empty
out_named = refl

two_languages : codes "cpp,python" ≡ join (codes ",") (map language_name (cpp ∷ python ∷ []))
unfolding join
two_languages = refl

main-writes_example :
    (c : Codegen) × (written : Files) × (main sample_driver sample_paths sample_flags
      ≡ exits 0 written)
    × (c.output_dir ≡ codes "/out")
    × (c.parser ≡ demo)
    × (map (λ f. f.0) written
        ≡ map (λ lang. output_filename sample_driver lang c) (cpp ∷ python ∷ []))
main-writes_example =
    main-writes sample_driver sample_paths sample_flags (codes "schema") (codes "/out") demo cpp
      (python ∷ []) file_named refl path_named refl out_named refl two_languages refl (λ dirs. refl)
      file-IsPlain demo-PlainParser (tt, (demo_made, tt)) (λ name text. refl)
