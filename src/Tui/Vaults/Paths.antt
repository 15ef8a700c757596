-- ===== src/Tui/Vaults/Paths.antt =====
-- tui/widgets/vaults/mod.rs: the path of a new vault.
pub mod Unique
use re_vault.Prelude.{
  ℕ, zero, suc, ◌+◌, ◌/◌, ◌%◌, Bool, false, ◌&&◌, ◌||◌, List, [], ◌∷◌, ◌++◌, Option, none, some,
  length, ltb, leb, ◌==◌, if◌then◌else◌, bytes_eq, ascii,
}
use re_vault.Text.{Text, push, is_empty}

-- `char::is_ascii_alphanumeric`
abbrev pub is_ascii_alphanumeric : ℕ → Bool
is_ascii_alphanumeric c =
    (leb b'0' c && leb c b'9') || (leb b'A' c && leb c b'Z') || (leb b'a' c && leb c b'z')

abbrev pub ends_with_dash : Text → Bool
ends_with_dash [] = false
ends_with_dash (c ∷ []) = c == b'-'
ends_with_dash (c ∷ d ∷ s) = ends_with_dash (d ∷ s)

abbrev pub slug_step : Text → ℕ → Text
slug_step out c =
    if is_ascii_alphanumeric c
    then push out c
    else if ends_with_dash out
    then out
    else push out b'-'

unfoldable pub slug_from : Text → Text → Text
slug_from out [] = out
slug_from out (c ∷ s) = slug_from (slug_step out c) s

trim_dashes_start : Text → Text
trim_dashes_start [] = []
trim_dashes_start (c ∷ s) = if c == b'-' then trim_dashes_start s else c ∷ s

trim_dashes_end : Text → Text
trim_dashes_end [] = []
trim_dashes_end (c ∷ s) =
    let rest = trim_dashes_end s in if (c == b'-') && is_empty rest then [] else c ∷ rest

abbrev pub or_vault : Text → Text
or_vault [] = ascii "vault"
or_vault (c ∷ s) = c ∷ s

-- With `str::to_lowercase` of the name given. The slug is ASCII, and so its own bytes.
unfoldable pub slugify : Text → Text
unfolding trim_dashes_start trim_dashes_end
slugify lower_name = or_vault (trim_dashes_start (trim_dashes_end (slug_from [] lower_name)))

-- The decimal digits of `n`, with more fuel than `n`.
decimal_from : ℕ → ℕ → List ℕ
decimal_from zero n = []
decimal_from (suc fuel) n =
    let high = decimal_from fuel (n / 10) in
    if ltb n 10 then (b'0' + n) ∷ [] else high ++ ((b'0' + n % 10) ∷ [])

-- `format!("{n}")`
unfoldable pub decimal : ℕ → List ℕ
unfolding decimal_from
decimal n = decimal_from (n + 1) n

-- `dir.join(…)` of a file name
abbrev pub join : List ℕ → List ℕ → List ℕ
join dir name = dir ++ (b'/' ∷ name)

-- `dir.join(format!("{base}.rvlt"))` and `dir.join(format!("{base}-{n}.rvlt"))`
unfoldable pub first_candidate : List ℕ → List ℕ → List ℕ
first_candidate dir base = join dir (base ++ ascii ".rvlt")

unfoldable pub candidate : List ℕ → List ℕ → ℕ → List ℕ
candidate dir base n = join dir (base ++ (b'-' ∷ (decimal n ++ ascii ".rvlt")))

-- `Path::exists`, over the paths of the directory
unfoldable pub exists : List (List ℕ) → List ℕ → Bool
exists [] path = false
exists (p ∷ taken) path = bytes_eq p path || exists taken path

-- The `while` loop, on fuel; `none` is running out of it.
unfoldable pub search_from : List (List ℕ) → List ℕ → List ℕ → ℕ → List ℕ → ℕ → Option (List ℕ)
search_from taken dir base zero path n = none
search_from taken dir base (suc fuel) path n =
    let rest = search_from taken dir base fuel (candidate dir base n) (n + 1) in
    if exists taken path then rest else some path

-- A directory holds fewer than `2^31` files, so `n` does not overflow its type.
unfoldable pub unique_vault_path : List (List ℕ) → List ℕ → Text → Option (List ℕ)
unique_vault_path taken dir lower_name =
    let base = slugify lower_name in
    search_from taken dir base (length taken + 1) (first_candidate dir base) 2
