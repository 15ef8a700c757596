-- ===== src/Text.antt =====
-- A Rust `String` while it is edited: the list of its characters' scalar values. What the source
-- stores or sends is its UTF-8 bytes.
use re_vault.Prelude.{
  ℕ, ◌+◌, ◌/◌, ◌%◌, ◌<◌, ◌≡◌, refl, Bool, true, false, ◌&&◌, ◌||◌, List, [], ◌∷◌, ◌++◌, ltb, leb,
  ◌==◌, if◌then◌else◌, All, arith,
}

abbrev pub Text : Type 0
Text = List ℕ

-- `String::push` and `String::pop`, the character dropped
unfoldable pub push : Text → ℕ → Text
push s c = s ++ (c ∷ [])

unfoldable pub pop : Text → Text
pop [] = []
pop (c ∷ []) = []
pop (c ∷ d ∷ s) = c ∷ pop (d ∷ s)

abbrev pub is_empty : Text → Bool
is_empty [] = true
is_empty (c ∷ s) = false

-- `char::is_whitespace`: Unicode's White_Space
unfoldable pub is_whitespace : ℕ → Bool
is_whitespace c =
    (leb 0x9 c && leb c 0xd)
    || (c == 0x20)
    || (c == 0x85)
    || (c == 0xa0)
    || (c == 0x1680)
    || (leb 0x2000 c && leb c 0x200a)
    || (c == 0x2028)
    || (c == 0x2029)
    || (c == 0x202f)
    || (c == 0x205f)
    || (c == 0x3000)

unfoldable pub trim_start : Text → Text
trim_start [] = []
trim_start (c ∷ s) = if is_whitespace c then trim_start s else c ∷ s

unfoldable pub trim_end : Text → Text
trim_end [] = []
trim_end (c ∷ s) =
    let rest = trim_end s in if is_whitespace c && is_empty rest then [] else c ∷ rest

-- `str::trim`
unfoldable pub trim : Text → Text
unfolding trim_start trim_end is_whitespace
trim s = trim_start (trim_end s)

-- `char::encode_utf8`
unfoldable pub encode_char : ℕ → List ℕ
encode_char c =
    if ltb c 0x80
    then c ∷ []
    else if ltb c 0x800
    then (0xc0 + c / 64) ∷ (0x80 + c % 64) ∷ []
    else if ltb c 0x10000
    then (0xe0 + c / 4096) ∷ (0x80 + c / 64 % 64) ∷ (0x80 + c % 64) ∷ []
    else (0xf0 + c / 262144) ∷ (0x80 + c / 4096 % 64) ∷ (0x80 + c / 64 % 64) ∷ (0x80 + c % 64) ∷ []

-- `str::as_bytes`
unfoldable pub utf8 : Text → List ℕ
unfolding encode_char
utf8 [] = []
utf8 (c ∷ s) = encode_char c ++ utf8 s

-- The characters that print: ASCII, and no blank.
abbrev pub IsGraphic : ℕ → Type 0
IsGraphic c = (0x20 < c) × (c < 0x7f)

trim_end-graphic : (s : Text) → All IsGraphic s → trim_end s ≡ s
unfolding trim_end is_whitespace
trim_end-graphic [] a = refl
trim_end-graphic (c ∷ s) (h, a) = ground (arith, h, trim_end-graphic s a)

pub trim-graphic : (s : Text) → All IsGraphic s → trim s ≡ s
unfolding trim trim_start is_whitespace
trim-graphic [] a = trim_end-graphic [] a
trim-graphic (c ∷ s) (h, a) = rw (trim_end-graphic (c ∷ s) (h, a)) (ground (arith, h))

pub utf8-graphic : (s : Text) → All IsGraphic s → utf8 s ≡ s
unfolding utf8 encode_char
utf8-graphic [] a = refl
utf8-graphic (c ∷ s) (h, a) = ground (arith, h, utf8-graphic s a)

-- The words of what is left, after the characters `held` of a word not yet ended.
unfoldable pub words_from : Text → Text → List Text
words_from [] [] = []
words_from (h ∷ held) [] = (h ∷ held) ∷ []
words_from held (c ∷ s) = elim (is_whitespace c) [
  | true ↦ elim held [ [] ↦ words_from [] s | h ∷ hs ↦ (h ∷ hs) ∷ words_from [] s ]
  | false ↦ words_from (push held c) s
]

-- `str::split_whitespace`
unfoldable pub split_whitespace : Text → List Text
unfolding words_from is_whitespace push
split_whitespace s = words_from [] s
