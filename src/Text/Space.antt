-- ===== src/Text/Space.antt =====
-- `strings.TrimSpace` as the source uses it.
use server_validator.Prelude.{ℕ, Bool, ◌&&◌, ◌||◌, [], ◌∷◌, ◌==◌, leb, if◌then◌else◌}
use server_validator.Text.Core.{Text, is_empty}

-- The white space of `unicode.IsSpace`, by the length of its UTF-8 encoding.
abbrev white1 : ℕ → Bool
white1 a = (leb 9 a && leb a 13) || a == 32

-- U+0085, U+00A0
abbrev white2 : ℕ → ℕ → Bool
white2 a b = a == 0xc2 && (b == 0x85 || b == 0xa0)

-- U+1680, U+2000 to U+200A, U+2028, U+2029, U+202F, U+205F, U+3000
abbrev white3 : ℕ → ℕ → ℕ → Bool
white3 a b c =
    (a == 0xe1 && b == 0x9a && c == 0x80)
    || (a == 0xe2
        && b == 0x80
        && ((leb 0x80 c && leb c 0x8a) || c == 0xa8 || c == 0xa9 || c == 0xaf))
    || (a == 0xe2 && b == 0x81 && c == 0x9f)
    || (a == 0xe3 && b == 0x80 && c == 0x80)

-- `strings.TrimLeftFunc(s, unicode.IsSpace)`
unfoldable trim_left : Text → Text
trim_left [] = []
trim_left (a ∷ []) = if white1 a then [] else a ∷ []
trim_left (a ∷ b ∷ []) =
    let one = trim_left (b ∷ []) in if white1 a then one else if white2 a b then [] else a ∷ b ∷ []
trim_left (a ∷ b ∷ c ∷ s) =
    let one = trim_left (b ∷ c ∷ s) in
    let two = trim_left (c ∷ s) in
    let three = trim_left s in
    if white1 a
    then one
    else if white2 a b
    then two
    else if white3 a b c
    then three
    else a ∷ b ∷ c ∷ s

-- `strings.TrimRightFunc(s, unicode.IsSpace)`: drops the longest tail that is all white space.
unfoldable trim_right : Text → Text
trim_right [] = []
trim_right (c ∷ s) =
    let rest = trim_right s in if is_empty (trim_left (c ∷ s)) then [] else c ∷ rest

unfoldable pub trim_space : Text → Text
unfolding trim_left trim_right is_empty
trim_space s = trim_right (trim_left s)
