-- ===== src/Smfc/Driver/Languages.antt =====
-- `split_coma` and `split_langs` of src/smfc/main.cc.
use smf.Prelude.{
  ℕ, ◌≡◌, refl, ap, ◌∙◌, Bool, ◌&&◌, ◌||◌, List, [], ◌∷◌, ◌++◌, map, Option, none, some, leb, ◌==◌,
  if◌then◌else◌,
}
use smf.Smfc.Printer.{Text, codes, same, is_empty}
use smf.Smfc.Names.{join}
use smf.Smfc.Schema.{Language, cpp, go, python}

onto_first : ℕ → List Text → List Text
onto_first c [] = (c ∷ []) ∷ []
onto_first c (t ∷ ts) = (c ∷ t) ∷ ts

-- `boost::algorithm::split` at every comma.
unfoldable pub split : Text → List Text
unfolding onto_first
split [] = [] ∷ []
split (c ∷ s) = let rest = split s in if c == b',' then [] ∷ rest else onto_first c rest

isspace : ℕ → Bool
isspace c = c == b' ' || (leb 9 c && leb c 13)

trim_start : Text → Text
unfolding isspace
trim_start [] = []
trim_start (c ∷ s) = let rest = trim_start s in if isspace c then rest else c ∷ s

trim_end : Text → Text
unfolding isspace is_empty
trim_end [] = []
trim_end (c ∷ s) = let rest = trim_end s in if is_empty rest && isspace c then [] else c ∷ rest

unfoldable pub trim : Text → Text
unfolding trim_start trim_end
trim s = trim_end (trim_start s)

-- The case of an empty result never comes: even an empty text splits into one piece.
unfoldable pub split_coma : Text → List Text
unfolding split trim
split_coma dirs = map trim (split dirs)

unfoldable pub language_of : Text → Option Language
unfolding same
language_of l =
    if same l (codes "cpp")
    then some cpp
    else if same l (codes "go")
    then some go
    else if same l (codes "python")
    then some python
    else none

-- Unknown languages are skipped.
unfoldable pub known : List Text → List Language
unfolding language_of
known [] = []
known (l ∷ ls) = elim (language_of l) [ none ↦ known ls | some x ↦ x ∷ known ls ]

unfoldable pub split_langs : Text → List Language
unfolding split_coma known
split_langs lang = known (split_coma lang)

abbrev pub language_name : Language → Text
language_name cpp = codes "cpp"
language_name go = codes "go"
language_name python = codes "python"

first_language :
    (l : Language) (rest : Text)
    → split_langs (language_name l ++ codes "," ++ rest) ≡ l ∷ split_langs rest
unfolding split_langs
first_language cpp rest = refl
first_language go rest = refl
first_language python rest = refl

-- A list of one language or more, written with commas between them, is read as that list.
pub split_langs-join :
    (l : Language) (ls : List Language)
    → split_langs (join (codes ",") (map language_name (l ∷ ls))) ≡ l ∷ ls
unfolding join split_langs
split_langs-join cpp [] = refl
split_langs-join go [] = refl
split_langs-join python [] = refl
split_langs-join l (m ∷ ls) =
    first_language l (join (codes ",") (map language_name (m ∷ ls)))
    ∙ ap (λ xs. l ∷ xs) (split_langs-join m ls)
