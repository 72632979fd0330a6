-- ===== src/Text/Escape.antt =====
-- The two ways in which net/url writes a text: `url.QueryEscape`, and the password of the `String`
-- of a `url.UserPassword`.
use server_validator.Prelude.{
  ℕ, ◌+◌, ◌/◌, ◌%◌, ◌≡◌, ◌≢◌, ◌⊎◌, inl, inr, refl, Any, Bool-cases, Bool, true, false, ◌||◌, ◌&&◌,
  [], ◌∷◌, ◌++◌, arith, ltb, leb, ◌==◌, if◌then◌else◌, All-append,
}
use server_validator.Text.Core.{Text}
use server_validator.Text.Search.{Lacks}
use server_validator.Text.Replace.{star}

is_unreserved : ℕ → Bool
is_unreserved c =
    (leb b'a' c && leb c b'z')
    || (leb b'A' c && leb c b'Z')
    || (leb b'0' c && leb c b'9')
    || c == b'-'
    || c == b'_'
    || c == b'.'
    || c == b'~'

-- An upper-case hexadecimal digit.
hex : ℕ → ℕ
hex d = if ltb d 10 then b'0' + d else b'7' + d

percent : ℕ → Text
unfolding hex
percent c = b'%' ∷ hex (c / 16) ∷ hex (c % 16) ∷ []

escape_byte : ℕ → Text
unfolding is_unreserved percent
escape_byte c = if is_unreserved c then c ∷ [] else if c == b' ' then b'+' ∷ [] else percent c

unfoldable pub query_escape : Text → Text
unfolding escape_byte
query_escape [] = []
query_escape (c ∷ s) = escape_byte c ++ query_escape s

escape_byte-Lacks : (c : ℕ) → Lacks star (escape_byte c)
unfolding escape_byte
escape_byte-Lacks c = ground arith

-- An escaped text has no star, and only the empty text is escaped to nothing.
pub query_escape-Lacks : (s : Text) → Lacks star (query_escape s)
unfolding query_escape
query_escape-Lacks [] = tt
query_escape-Lacks (c ∷ s) =
    All-append (λ b. b ≢ star) (escape_byte c) (query_escape s) (escape_byte-Lacks c)
      (query_escape-Lacks s)

pub query_escape-ne-nil : (c : ℕ) (s : Text) → query_escape (c ∷ s) ≢ []
unfolding query_escape
query_escape-ne-nil c s = ground arith

-- The bytes that the password of a URL keeps and a query does not: $ & + , ; =
abbrev is_kept : ℕ → Bool
is_kept c = c == b'$' || c == b'&' || c == b'+' || c == b',' || c == b';' || c == b'='

user_byte : ℕ → Text
unfolding is_unreserved percent
user_byte c = if is_unreserved c || is_kept c then c ∷ [] else percent c

unfoldable pub userinfo_escape : Text → Text
unfolding user_byte
userinfo_escape [] = []
userinfo_escape (c ∷ s) = user_byte c ++ userinfo_escape s

-- The bytes that the two ways write differently: those, and the space.
abbrev pub is_apart : ℕ → Bool
is_apart c = is_kept c || c == b' '

user_byte_lem : (c : ℕ) → is_apart c ≡ false → user_byte c ≡ escape_byte c
unfolding user_byte escape_byte is_unreserved
user_byte_lem c h = ground arith

-- The two ways agree on a text without those bytes.
pub userinfo_escape_lem :
    (s : Text) → (userinfo_escape s ≡ query_escape s) ⊎ Any (λ c. is_apart c ≡ true) s
unfolding userinfo_escape query_escape
userinfo_escape_lem [] = inl refl
userinfo_escape_lem (c ∷ s) = elim (Bool-cases (is_apart c)) [
  | inl e ↦ inr (inl e)
  | inr e ↦ elim (userinfo_escape_lem s) [
    | inl same ↦ inl (cc (user_byte_lem c e, same))
    | inr later ↦ inr (inr later)
  ]
]

user_byte-Lacks_space : (c : ℕ) → Lacks b' ' (user_byte c)
unfolding user_byte is_unreserved percent hex
user_byte-Lacks_space c = ground arith

user_byte-Lacks_plus : (c : ℕ) → c ≢ b'+' → Lacks b'+' (user_byte c)
unfolding user_byte is_unreserved percent hex
user_byte-Lacks_plus c n = ground arith

pub userinfo_escape-Lacks_space : (s : Text) → Lacks b' ' (userinfo_escape s)
unfolding userinfo_escape
userinfo_escape-Lacks_space [] = tt
userinfo_escape-Lacks_space (c ∷ s) =
    All-append (λ b. b ≢ b' ') (user_byte c) (userinfo_escape s) (user_byte-Lacks_space c)
      (userinfo_escape-Lacks_space s)

pub userinfo_escape-Lacks_plus : (s : Text) → Lacks b'+' s → Lacks b'+' (userinfo_escape s)
unfolding userinfo_escape
userinfo_escape-Lacks_plus [] h = tt
userinfo_escape-Lacks_plus (c ∷ s) h =
    All-append (λ b. b ≢ b'+') (user_byte c) (userinfo_escape s) (user_byte-Lacks_plus c h.0)
      (userinfo_escape-Lacks_plus s h.1)

Any-behind : (b : ℕ) (s t : Text) → Any (λ c. c ≡ b) t → Any (λ c. c ≡ b) (s ++ t)
Any-behind b [] t h = h
Any-behind b (c ∷ s) t h = inr (Any-behind b s t h)

-- A space is a plus sign in a query.
pub query_escape-plus : (s : Text) → Any (λ c. c ≡ b' ') s → Any (λ c. c ≡ b'+') (query_escape s)
unfolding query_escape escape_byte is_unreserved
query_escape-plus [] h = absurd h
query_escape-plus (c ∷ s) (inl e) = rw (e, query_escape) (inl refl)
query_escape-plus (c ∷ s) (inr h) =
    Any-behind b'+' (escape_byte c) (query_escape s) (query_escape-plus s h)
