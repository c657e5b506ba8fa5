-- ===== src/Text.antt =====
-- Text as a list of character codes, and the helpers of src/util.hpp.
use Prim.Native.Char.{code}
use Prim.Native.String.{String}
use bme.Base.{ℕ, ◌+◌, ◌-◌, Bool, true, false, ◌&&◌, ◌||◌, List, [], ◌∷◌, leb, ◌==◌, if◌then◌else◌}

-- A `std::string` or `std::string_view`: its bytes.
abbrev pub Text : Type 0
Text = List ℕ

-- A literal of the source; every one used here is ASCII.
abbrev pub codes : String → Text
codes String.[] = []
codes (String.◌∷◌ c s) = code c ∷ codes s

abbrev pub is_empty {ℓ} : {A : Type ℓ} → List A → Bool
is_empty [] = true
is_empty (x ∷ xs) = false

-- `std::isspace` and `std::isxdigit` in the "C" locale, which the program never changes.
unfoldable pub is_space : ℕ → Bool
is_space c = c == b' ' || (leb 9 c && leb c 13)

abbrev pub is_digit : ℕ → Bool
is_digit c = leb b'0' c && leb c b'9'

unfoldable pub is_xdigit : ℕ → Bool
is_xdigit c = is_digit c || (leb b'A' c && leb c b'F') || (leb b'a' c && leb c b'f')

unfoldable pub lowercase : ℕ → ℕ
lowercase c = if leb b'A' c && leb c b'Z' then c + (b'a' - b'A') else c

unfoldable pub text_eq : Text → Text → Bool
text_eq [] [] = true
text_eq (x ∷ xs) (y ∷ ys) = x == y && text_eq xs ys
text_eq _ _ = false

unfoldable pub ascii_case_insensitive_equal : Text → Text → Bool
unfolding lowercase
ascii_case_insensitive_equal [] [] = true
ascii_case_insensitive_equal (x ∷ xs) (y ∷ ys) =
    lowercase x == lowercase y && ascii_case_insensitive_equal xs ys
ascii_case_insensitive_equal _ _ = false

unfoldable pub ltrim : (ℕ → Bool) → Text → Text
ltrim p [] = []
ltrim p (c ∷ cs) = if p c then ltrim p cs else c ∷ cs

-- The part up to the last character that fails the predicate.
unfoldable pub rtrim : (ℕ → Bool) → Text → Text
rtrim p [] = []
rtrim p (c ∷ cs) = let rest = rtrim p cs in if is_empty rest && p c then [] else c ∷ rest

unfoldable pub trim : (ℕ → Bool) → Text → Text
unfolding ltrim rtrim
trim p text = rtrim p (ltrim p text)
