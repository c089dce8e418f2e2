-- ===== src/Smfc/Names.antt =====
-- The helpers on names of src/smfc/cpp_generator.cc, src/smfc/go_generator.cc and
-- src/smfc/python_generator.cc. Characters are bytes, and the tests on them are those of the "C"
-- locale.
use smf.Prelude.{
  ℕ, zero, suc, ◌+◌, ◌-◌, ◌*◌, ◌/◌, ◌%◌, ◌^◌, ◌<◌, ◌≡◌, refl, Bool, false, ◌&&◌, ◌||◌, List, [],
  ◌∷◌, ◌++◌, map, arith, ltb, leb, ◌==◌, if◌then◌else◌,
}
use smf.Smfc.Printer.{Text, codes, escapes}
use smf.Smfc.Printer.Laws.{escapes-append}

unfoldable pub isupper : ℕ → Bool
isupper c = leb b'A' c && leb c b'Z'

unfoldable pub islower : ℕ → Bool
islower c = leb b'a' c && leb c b'z'

unfoldable pub isalnum : ℕ → Bool
unfolding isupper islower
isalnum c = isupper c || islower c || (leb b'0' c && leb c b'9')

unfoldable pub toupper : ℕ → ℕ
unfolding islower
toupper c = if islower c then c - 32 else c

unfoldable pub tolower : ℕ → ℕ
unfolding isupper
tolower c = if isupper c then c + 32 else c

-- `go_public_name` and `python_public_name`.
unfoldable pub public_name : Text → Text
public_name [] = []
public_name (c ∷ s) = toupper c ∷ s

unfoldable pub is_camel_case : Text → Bool
is_camel_case [] = false
is_camel_case (c ∷ s) = let rest = is_camel_case s in isupper c || rest

lower_one : ℕ → ℕ
unfolding isalnum tolower
lower_one c = if isalnum c then tolower c else c

unfoldable pub lower_vec : List Text → Text
unfolding lower_one
lower_vec [] = []
lower_vec (t ∷ ts) = map lower_one t ++ lower_vec ts

-- Their CHECKs hold at every call, where one of the two is a literal.
unfoldable pub proper_postfix_token : (s postfix : Text) → Text
unfolding is_camel_case public_name lower_vec
proper_postfix_token s postfix =
    if is_camel_case s
    then public_name s ++ public_name postfix
    else lower_vec (s ∷ codes "_" ∷ postfix ∷ [])

unfoldable pub proper_prefix_token : (prefix s : Text) → Text
unfolding is_camel_case public_name lower_vec
proper_prefix_token prefix s =
    if is_camel_case s
    then public_name prefix ++ public_name s
    else lower_vec (prefix ∷ codes "_" ∷ s ∷ [])

unfoldable pub hex : ℕ → ℕ
hex d = if ltb d 10 then b'0' + d else b'a' + (d - 10)

unfoldable pub file_name_identifier : Text → Text
unfolding isalnum toupper hex
file_name_identifier [] = []
file_name_identifier (c ∷ s) =
    let rest = file_name_identifier s in
    if isalnum c
    then toupper c ∷ rest
    else if c == b'_'
    then c ∷ rest
    else b'_' ∷ hex (c / 16 % 16) ∷ hex (c % 16) ∷ rest

decimal : (places : ℕ) → ℕ → Text
decimal zero n = []
decimal (suc k) n =
    let rest = decimal k (n / 10) in
    if ltb n 10 then (b'0' + n) ∷ [] else rest ++ (b'0' + n % 10) ∷ []

-- A number below 2 ^ 64 has at most 20 places.
unfoldable pub to_string : ℕ → Text
unfolding decimal
to_string n = decimal 20 n

-- `boost::algorithm::join`.
unfoldable pub join : (separator : Text) → List Text → Text
join separator [] = []
join separator (t ∷ []) = t
join separator (t ∷ u ∷ ts) = t ++ separator ++ join separator (u ∷ ts)

pub value : ℕ → Text → ℕ
value v [] = v
value v (c ∷ s) = value (v * 10 + (c - b'0')) s

value-append : (s : Text) (v c : ℕ) → value v (s ++ c ∷ []) ≡ value v s * 10 + (c - b'0')
unfolding value
value-append [] v c = ground arith
value-append (d ∷ s) v c = ground (arith, value-append s (v * 10 + (d - b'0')) c)

value-decimal : (k n : ℕ) → n < 10 ^ k → value 0 (decimal k n) ≡ n
unfolding value decimal
value-decimal zero n h = ground arith
value-decimal (suc k) n h =
    ground (arith, value-decimal k (n / 10), value-append (decimal k (n / 10)) 0 (b'0' + n % 10))

-- A number below 2 ^ 64 is printed so that its digits read as the number.
pub value-to_string : (n : ℕ) → n < 2 ^ 64 → value 0 (to_string n) ≡ n
unfolding to_string
value-to_string n h = value-decimal 20 n (omega arith)

pub escapes-public_name : (s : Text) → escapes s ≡ 0 → escapes (public_name s) ≡ 0
unfolding public_name escapes toupper islower
escapes-public_name [] e = ground arith
escapes-public_name (c ∷ s) e = ground arith

lower_one-escape : (c : ℕ) → (lower_one c == b'$') ≡ (c == b'$')
unfolding lower_one isalnum tolower isupper islower
lower_one-escape c = ground arith

escapes-lower_one : (s : Text) → escapes (map lower_one s) ≡ escapes s
unfolding escapes
escapes-lower_one [] = refl
escapes-lower_one (c ∷ s) = ground (arith, lower_one-escape c, escapes-lower_one s)

escapes-lower_three :
    (s t u : Text)
    → escapes s ≡ 0
    → escapes t ≡ 0
    → escapes u ≡ 0
    → escapes (lower_vec (s ∷ t ∷ u ∷ [])) ≡ 0
unfolding lower_vec escapes
escapes-lower_three s t u a b c = omega (
  arith,
  escapes-append (map lower_one s) (map lower_one t ++ (map lower_one u ++ [])),
  escapes-append (map lower_one t) (map lower_one u ++ []),
  escapes-append (map lower_one u) [],
  escapes-lower_one s,
  escapes-lower_one t,
  escapes-lower_one u,
)

pub escapes_both : (s t : Text) → escapes s ≡ 0 → escapes t ≡ 0 → escapes (s ++ t) ≡ 0
escapes_both s t a b = omega (arith, escapes-append s t)

pub escapes-postfix :
    (s t : Text) → escapes s ≡ 0 → escapes t ≡ 0 → escapes (proper_postfix_token s t) ≡ 0
unfolding proper_postfix_token escapes
escapes-postfix s t a b = ground (
  arith,
  escapes_both (public_name s) (public_name t) (escapes-public_name s a) (escapes-public_name t b),
  escapes-lower_three s (codes "_") t a refl b,
)

pub escapes-prefix :
    (s t : Text) → escapes s ≡ 0 → escapes t ≡ 0 → escapes (proper_prefix_token s t) ≡ 0
unfolding proper_prefix_token escapes
escapes-prefix s t a b = ground (
  arith,
  escapes_both (public_name s) (public_name t) (escapes-public_name s a) (escapes-public_name t b),
  escapes-lower_three s (codes "_") t a refl b,
)

hex_not_escape : (d : ℕ) → (hex d == b'$') ≡ false
unfolding hex
hex_not_escape d = ground arith

-- Whatever the name, its identifier holds no escape character.
pub escapes-file_name_identifier : (s : Text) → escapes (file_name_identifier s) ≡ 0
unfolding file_name_identifier escapes isalnum toupper isupper islower
escapes-file_name_identifier [] = refl
escapes-file_name_identifier (c ∷ s) =
    ground
      (arith, hex_not_escape (c / 16 % 16), hex_not_escape (c % 16), escapes-file_name_identifier s)

escapes-decimal : (k n : ℕ) → escapes (decimal k n) ≡ 0
unfolding decimal escapes
escapes-decimal zero n = refl
escapes-decimal (suc k) n =
    ground (
      arith,
      escapes-decimal k (n / 10),
      escapes-append (decimal k (n / 10)) ((b'0' + n % 10) ∷ []),
    )

pub escapes-to_string : (n : ℕ) → escapes (to_string n) ≡ 0
unfolding to_string
escapes-to_string n = escapes-decimal 20 n
