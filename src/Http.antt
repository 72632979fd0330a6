-- ===== src/Http.antt =====
-- net/http: the type `http.Header` as the source uses it. A header maps names in one spelling to
-- lists of values; `Set` and `Add` bring a name into that spelling.
use server_validator.Prelude.{
  ℕ, ◌+◌, ◌-◌, ◌≡◌, refl, Bool, true, false, ◌&&◌, ◌||◌, List, [], ◌∷◌, ◌++◌, Option, none, some,
  arith, leb, ◌==◌, if◌then◌else◌,
}
use server_validator.Text.{Text}
use server_validator.GoMap.{GoMap, lookup, insert}

abbrev pub Header : Type 0
Header = GoMap (List Text)

unfoldable pub is_lower : ℕ → Bool
is_lower c = leb 97 c && leb c 122

unfoldable pub is_upper : ℕ → Bool
is_upper c = leb 65 c && leb c 90

-- The bytes of a name that are no letter: digits and !#$%&'*+-.^_`|~
unfoldable pub is_mark : ℕ → Bool
is_mark c =
    (leb 48 c && leb c 57)
    || c == 33
    || (leb 35 c && leb c 39)
    || c == 42
    || c == 43
    || c == 45
    || c == 46
    || (leb 94 c && leb c 96)
    || c == 124
    || c == 126

unfoldable pub is_token_byte : ℕ → Bool
is_token_byte c = is_lower c || is_upper c || is_mark c

unfoldable pub is_token : Text → Bool
is_token [] = true
is_token (c ∷ s) = is_token_byte c && is_token s

-- A letter in upper case at the start of a word, in lower case elsewhere.
unfoldable pub cased : Bool → ℕ → ℕ
cased true c = if is_lower c then c - 32 else c
cased false c = if is_upper c then c + 32 else c

unfoldable pub spelled : Bool → Text → Text
spelled start [] = []
spelled start (c ∷ s) = cased start c ∷ spelled (cased start c == 45) s

-- `http.CanonicalHeaderKey`: a name with another byte stays as it is.
unfoldable pub canonical : Text → Text
canonical s = if is_token s then spelled true s else s

-- `h.Set(k, v)`
unfoldable pub set_header : Text → Text → Header → Header
set_header k v h = insert (canonical k) (v ∷ []) h

unfoldable pub values : Option (List Text) → List Text
values none = []
values (some vs) = vs

-- `h.Add(k, v)`
unfoldable pub add_header : Text → Text → Header → Header
add_header k v h = insert (canonical k) (values (lookup (canonical k) h) ++ v ∷ []) h

cased_idem : (b : Bool) (c : ℕ) → cased b (cased b c) ≡ cased b c
unfolding cased is_lower is_upper
cased_idem true c = ground arith
cased_idem false c = ground arith

cased-token : (b : Bool) (c : ℕ) → is_token_byte (cased b c) ≡ is_token_byte c
unfolding cased is_lower is_upper is_token_byte
cased-token true c = ground arith
cased-token false c = ground arith

spelled_idem : (b : Bool) (s : Text) → spelled b (spelled b s) ≡ spelled b s
unfolding spelled
spelled_idem b [] = refl
spelled_idem b (c ∷ s) = rw (cased_idem b c, spelled_idem (cased b c == 45) s) refl

spelled-token : (b : Bool) (s : Text) → is_token (spelled b s) ≡ is_token s
unfolding spelled is_token
spelled-token b [] = refl
spelled-token b (c ∷ s) = rw (cased-token b c, spelled-token (cased b c == 45) s) refl

pub canonical_idem : (s : Text) → canonical (canonical s) ≡ canonical s
unfolding canonical
canonical_idem s = ground (arith, spelled-token true s, spelled_idem true s)
