-- ===== src/Utf8.antt =====
-- UTF-8 as the standard library reads it: `String::from_utf8` and `String::from_utf8_lossy`.
-- A Rust `String` is the list of its bytes, with `is_utf8` true of it.
use re_vault.Prelude.{
  ℕ, ◌≡◌, ap, ◌∙◌, sym, Bool, true, false, ◌&&◌, List, [], ◌∷◌, ◌++◌, Option, none, some, leb, ◌==◌,
  if◌then◌else◌, append-nil, append_assoc, Bool-cases, Option-cases, inl, inr,
}

abbrev pub Span : Type 0
Span = ℕ × ℕ

abbrev within : ℕ → Span → Bool
within b (lo, hi) = leb lo b && leb b hi

abbrev tail : Span
tail = (0x80, 0xbf)

-- The ranges of the bytes that must follow a lead byte; `none` if it leads nothing.
unfoldable pub follow : ℕ → Option (List Span)
follow b =
    if leb b 0x7f
    then some []
    else if within b (0xc2, 0xdf)
    then some (tail ∷ [])
    else if b == 0xe0
    then some ((0xa0, 0xbf) ∷ tail ∷ [])
    else if b == 0xed
    then some ((0x80, 0x9f) ∷ tail ∷ [])
    else if within b (0xe1, 0xef)
    then some (tail ∷ tail ∷ [])
    else if b == 0xf0
    then some ((0x90, 0xbf) ∷ tail ∷ tail ∷ [])
    else if within b (0xf1, 0xf3)
    then some (tail ∷ tail ∷ tail ∷ [])
    else if b == 0xf4
    then some ((0x80, 0x8f) ∷ tail ∷ tail ∷ [])
    else none

-- Validity with the ranges of the bytes still due in the current character.
valid_from : List Span → List ℕ → Bool
valid_from [] [] = true
valid_from (p ∷ ps) [] = false
valid_from [] (b ∷ bs) = elim (follow b) [ none ↦ false | some ps ↦ valid_from ps bs ]
valid_from (p ∷ ps) (b ∷ bs) = within b p && valid_from ps bs

unfoldable pub is_utf8 : List ℕ → Bool
unfolding valid_from follow
is_utf8 s = valid_from [] s

-- U+FFFD, which takes the place of each maximal broken part.
abbrev replacement : List ℕ
replacement = 0xef ∷ 0xbf ∷ 0xbd ∷ []

-- `held` is the current character so far, and the spans are those of its bytes still due.
lossy_from : List Span → List ℕ → List ℕ → List ℕ
lossy_from [] held [] = held
lossy_from (p ∷ ps) held [] = replacement
lossy_from [] held (b ∷ bs) = elim (follow b) [
  | none ↦ held ++ (replacement ++ lossy_from [] [] bs)
  | some ps ↦ held ++ lossy_from ps (b ∷ []) bs
]
lossy_from (p ∷ ps) held (b ∷ bs) = elim (within b p) [
  | true ↦ lossy_from ps (held ++ (b ∷ [])) bs
  | false ↦ elim (follow b) [
    | none ↦ replacement ++ (replacement ++ lossy_from [] [] bs)
    | some qs ↦ replacement ++ lossy_from qs (b ∷ []) bs
  ]
]

unfoldable pub from_utf8_lossy : List ℕ → List ℕ
unfolding lossy_from follow
from_utf8_lossy s = lossy_from [] [] s

lossy_from_valid :
    (ps : List Span) (held s : List ℕ) → valid_from ps s ≡ true → lossy_from ps held s ≡ held ++ s
unfolding valid_from lossy_from
lossy_from_valid [] held [] h = sym (append-nil held)
lossy_from_valid (p ∷ ps) held [] h = cc
lossy_from_valid [] held (b ∷ bs) h = elim (Option-cases (follow b)) [
  | inl e ↦ cc (rw (e, valid_from) at h)
  | inr (ps, e) ↦
      rw (e, lossy_from)
        (ap (λ t. held ++ t) (lossy_from_valid ps (b ∷ []) bs (rw (e, valid_from) at h)))
]
lossy_from_valid (p ∷ ps) held (b ∷ bs) h = elim (Bool-cases (within b p)) [
  | inl e ↦
      rw (e, lossy_from)
        (lossy_from_valid ps (held ++ (b ∷ [])) bs (rw (e, valid_from) at h)
          ∙ append_assoc held (b ∷ []) bs)
  | inr e ↦ cc (rw (e, valid_from) at h)
]

pub from_utf8_lossy-eq : (s : List ℕ) → is_utf8 s ≡ true → from_utf8_lossy s ≡ s
unfolding is_utf8 from_utf8_lossy
from_utf8_lossy-eq s h = lossy_from_valid [] [] s h
