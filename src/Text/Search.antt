-- ===== src/Text/Search.antt =====
-- `strings.HasPrefix`, `strings.Contains`, `strings.IndexByte` as the source uses them, and the
-- texts that lack a byte.
use server_validator.Prelude.{
  ℕ, ◌≡◌, ◌≢◌, refl, Bool, true, false, ◌&&◌, ◌||◌, [], ◌∷◌, ◌++◌, arith, ◌==◌, if◌then◌else◌, All,
  Option, none, some,
}
use server_validator.Text.Core.{Text}

-- `strings.HasPrefix(s, p)`
unfoldable pub starts_with : Text → Text → Bool
starts_with s [] = true
starts_with [] (d ∷ p) = false
starts_with (c ∷ s) (d ∷ p) = c == d && starts_with s p

-- `strings.Contains(s, p)`
unfoldable pub contains : Text → Text → Bool
contains [] p = starts_with [] p
contains (c ∷ s) p = starts_with (c ∷ s) p || contains s p

abbrev pub Lacks : ℕ → Text → Type 0
Lacks b = All (λ c. c ≢ b)

-- The text behind the first `b`, if there is one: `s[i+1:]` for `i = strings.IndexByte(s, b)`.
unfoldable pub after_byte : ℕ → Text → Option Text
after_byte b [] = none
after_byte b (c ∷ s) = if c == b then some s else after_byte b s

-- The text before the first `b`: `s[:i]`; the whole text where there is none.
unfoldable pub before_byte : ℕ → Text → Text
before_byte b [] = []
before_byte b (c ∷ s) = if c == b then [] else c ∷ before_byte b s

-- Where a byte occurs, the text falls apart at its first occurrence.
pub after_byte_split :
    (b : ℕ) (s t : Text)
    → after_byte b s ≡ some t
    → Lacks b (before_byte b s) × (s ≡ before_byte b s ++ b ∷ t)
unfolding after_byte before_byte
after_byte_split b [] t h = cc
after_byte_split b (c ∷ s) t h = ground (arith, after_byte_split b s t)

pub after_byte-none : (b : ℕ) (s : Text) → after_byte b s ≡ none → Lacks b s
unfolding after_byte
after_byte-none b [] h = tt
after_byte-none b (c ∷ s) h = ground (arith, after_byte-none b s)

before_byte-none : (b : ℕ) (s : Text) → after_byte b s ≡ none → before_byte b s ≡ s
unfolding after_byte before_byte
before_byte-none b [] h = refl
before_byte-none b (c ∷ s) h = ground (arith, before_byte-none b s)

pub after_byte-append : (b : ℕ) (p t : Text) → Lacks b p → after_byte b (p ++ b ∷ t) ≡ some t
unfolding after_byte
after_byte-append b [] t h = ground arith
after_byte-append b (c ∷ p) t h = ground (arith, after_byte-append b p t h.1)

before_byte-append : (b : ℕ) (p t : Text) → Lacks b p → before_byte b (p ++ b ∷ t) ≡ p
unfolding before_byte
before_byte-append b [] t h = ground arith
before_byte-append b (c ∷ p) t h = ground (arith, before_byte-append b p t h.1)

after_byte-Lacks : (b : ℕ) (s : Text) → Lacks b s → after_byte b s ≡ none
unfolding after_byte
after_byte-Lacks b [] h = refl
after_byte-Lacks b (c ∷ s) h = ground (arith, after_byte-Lacks b s h.1)

-- A text starts with `p` exactly when it is `p` and something behind it.
starts_with_split : (s p : Text) → starts_with s p ≡ true → (rest : Text) × (s ≡ p ++ rest)
unfolding starts_with
starts_with_split s [] h = (s, refl)
starts_with_split [] (d ∷ p) h = absurd (cc)
starts_with_split (c ∷ s) (d ∷ p) h =
    let (rest, e) = starts_with_split s p (ground arith) in (rest, ground arith)

starts_with-append : (p rest : Text) → starts_with (p ++ rest) p ≡ true
unfolding starts_with
starts_with-append [] rest = refl
starts_with-append (c ∷ p) rest = ground (arith, starts_with-append p rest)

contains-append : (pre p rest : Text) → contains (pre ++ p ++ rest) p ≡ true
unfolding contains
contains-append [] [] [] = unfold starts_with in refl
contains-append [] [] (d ∷ rest) = unfold starts_with in refl
contains-append [] (c ∷ p) rest = ground (arith, starts_with-append (c ∷ p) rest)
contains-append (d ∷ pre) p rest = ground (arith, contains-append pre p rest)
