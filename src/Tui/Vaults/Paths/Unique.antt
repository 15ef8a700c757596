-- ===== src/Tui/Vaults/Paths/Unique.antt =====
-- tui/widgets/vaults/mod.rs: the search for a path that is free ends, and finds one.
use re_vault.Prelude.{
  ℕ, zero, suc, ◌+◌, ◌-◌, ◌*◌, ◌/◌, ◌≤◌, ◌<◌, ◌≡◌, ◌≢◌, refl, sym, ap, ◌∙◌, true, false, ◌||◌, List,
  [], ◌∷◌, ◌++◌, some, length, drop, ltb, ◌==◌, if◌then◌else◌, bytes_eq, eq_of_bytes_eq, ascii,
  drop-append, append_assoc, All, All-append, Bool-cases, inl, inr, arith,
}
use re_vault.Text.{Text}
use re_vault.Tui.Vaults.Paths.{
  decimal, decimal_from, candidate, first_candidate, exists, search_from, slugify,
  unique_vault_path, join,
}

-- The number that digits spell up to a dot.
value : ℕ → List ℕ → ℕ
value acc [] = acc
value acc (c ∷ s) = let rest = value (acc * 10 + (c - b'0')) s in if c == b'.' then acc else rest

abbrev IsDigit : ℕ → Type 0
IsDigit c = b'0' ≤ c

value-append :
    (acc : ℕ) (ds s : List ℕ) → All IsDigit ds → value acc (ds ++ s) ≡ value (value acc ds) s
unfolding value
value-append acc [] s a = refl
value-append acc (d ∷ ds) s (h, a) =
    let digit : (d == b'.') ≡ false = ground (arith, h) in
    rw (digit) (value-append (acc * 10 + (d - b'0')) ds s a)

decimal_from-IsDigit : (fuel n : ℕ) → All IsDigit (decimal_from fuel n)
unfolding decimal_from
decimal_from-IsDigit zero n = tt
decimal_from-IsDigit (suc fuel) n = elim (Bool-cases (ltb n 10)) [
  | inl small ↦ rw (small) (omega arith, tt)
  | inr large ↦
      rw (large) (All-append IsDigit _ _ (decimal_from-IsDigit fuel (n / 10)) (omega arith, tt))
]

value-decimal_from : (fuel n : ℕ) → n < fuel → value 0 (decimal_from fuel n) ≡ n
unfolding decimal_from value
value-decimal_from zero n h = absurd (omega (arith, h))
value-decimal_from (suc fuel) n h = elim (Bool-cases (ltb n 10)) [
  | inl small ↦ rw (small) (ground (arith, small))
  | inr large ↦
      rw
        (
          large,
          value-append 0 (decimal_from fuel (n / 10)) _ (decimal_from-IsDigit fuel (n / 10)),
          value-decimal_from fuel (n / 10) (ground (arith, large, h)),
        )
        (ground arith)
]

remove : List ℕ → List (List ℕ) → List (List ℕ)
remove path [] = []
remove path (p ∷ taken) = let rest = remove path taken in if bytes_eq p path then rest else p ∷ rest

length-remove_le :
    (path : List ℕ) (taken : List (List ℕ)) → length (remove path taken) ≤ length taken
unfolding remove
length-remove_le path [] = omega arith
length-remove_le path (p ∷ taken) = elim (Bool-cases (bytes_eq p path)) [
  | inl same ↦ rw (same) (omega (arith, length-remove_le path taken))
  | inr other ↦ rw (other) (omega (arith, length-remove_le path taken))
]

length-remove :
    (path : List ℕ) (taken : List (List ℕ))
    → exists taken path ≡ true
    → length (remove path taken) < length taken
unfolding remove exists
length-remove path [] h = cc
length-remove path (p ∷ taken) h = elim (Bool-cases (bytes_eq p path)) [
  | inl same ↦ rw (same) (omega (arith, length-remove_le path taken))
  | inr other ↦ rw (other) (omega (arith, length-remove path taken (rw (other) at h)))
]

exists-remove :
    (gone path : List ℕ) (taken : List (List ℕ))
    → gone ≢ path
    → exists (remove gone taken) path ≡ exists taken path
unfolding remove exists
exists-remove gone path [] h = refl
exists-remove gone path (p ∷ taken) h = elim (Bool-cases (bytes_eq p gone)) [
  | inl same ↦ elim (Bool-cases (bytes_eq p path)) [
    | inl found ↦ absurd (h (sym (eq_of_bytes_eq p gone same) ∙ eq_of_bytes_eq p path found))
    | inr missed ↦ rw (same, missed) (exists-remove gone path taken h)
  ]
  | inr other ↦ rw (other) (ap (λ b. bytes_eq p path || b) (exists-remove gone path taken h))
]

module _ (dir base : List ℕ) where
  -- The number in a candidate, 0 in the first.
  index : List ℕ → ℕ
  unfolding value
  index path = value 0 (drop (length (dir ++ (b'/' ∷ base))) path)

  index-join : (s : List ℕ) → index (join dir (base ++ s)) ≡ value 0 s
  unfolding index
  index-join s =
      let whole : join dir (base ++ s) ≡ (dir ++ (b'/' ∷ base)) ++ s =
        sym (append_assoc dir (b'/' ∷ base) s) in
      rw (whole, drop-append (dir ++ (b'/' ∷ base)) s _ refl) refl

  index-first_candidate : index (first_candidate dir base) ≡ 0
  unfolding first_candidate value
  index-first_candidate = index-join (ascii ".rvlt")

  index-candidate : (n : ℕ) → index (candidate dir base n) ≡ n
  unfolding candidate decimal value
  index-candidate n =
      index-join _
      ∙ value-append 0 (decimal n) (ascii ".rvlt") (decimal_from-IsDigit (n + 1) n)
      ∙ value-decimal_from (n + 1) n (omega arith)

  -- A path that no later candidate is makes no difference to the search.
  search-remove :
      (taken : List (List ℕ)) (gone : List ℕ) (fuel : ℕ) (path : List ℕ) (n : ℕ)
      → index gone < index path
      → index path < n
      → search_from (remove gone taken) dir base fuel path n
        ≡ search_from taken dir base fuel path n
  unfolding search_from
  search-remove taken gone zero path n older newer = refl
  search-remove taken gone (suc fuel) path n older newer =
      let apart : gone ≢ path = λ e. omega (arith, ap index e, older) in
      rw
        (
          exists-remove gone path taken apart,
          search-remove taken gone fuel (candidate dir base n) (n + 1)
              (omega (arith, index-candidate n, older, newer)) (omega (arith, index-candidate n)),
        )
        refl

  search-ends :
      (fuel : ℕ) (taken : List (List ℕ)) (path : List ℕ) (n : ℕ)
      → length taken < fuel
      → index path < n
      → (p : List ℕ) × (search_from taken dir base fuel path n ≡ some p)
  unfolding search_from
  search-ends zero taken path n h newer = absurd (omega (arith, h))
  search-ends (suc fuel) taken path n h newer = elim (Bool-cases (exists taken path)) [
    | inl found ↦
        let (p, e) =
          search-ends fuel (remove path taken) (candidate dir base n) (n + 1)
            (omega (arith, h, length-remove path taken found)) (omega (arith, index-candidate n)) in
        rw (found) (
          p,
          sym (
                search-remove taken path fuel (candidate dir base n) (n + 1)
                  (omega (arith, index-candidate n, newer)) (omega (arith, index-candidate n)))
              ∙ e,
        )
    | inr missed ↦ rw (missed) (path, refl)
  ]

  search-free :
      (fuel : ℕ) (taken : List (List ℕ)) (path : List ℕ) (n : ℕ) (p : List ℕ)
      → search_from taken dir base fuel path n ≡ some p
      → exists taken p ≡ false
  unfolding search_from
  search-free zero taken path n p e = cc
  search-free (suc fuel) taken path n p e = elim (Bool-cases (exists taken path)) [
    | inl found ↦ search-free fuel taken (candidate dir base n) (n + 1) p (rw (found) at e)
    | inr missed ↦
        let same : path ≡ p = some_inv (rw (missed) at e) in ap (exists taken) (sym same) ∙ missed
  ]
    where
      some_inv : {a b : List ℕ} → some a ≡ some b → a ≡ b
      some_inv e = cc

-- Whatever files the directory holds, one more round than there are of them ends the search for a
-- path, and the path found is none of theirs.
pub unique_vault_path-ends :
    (taken : List (List ℕ)) (dir : List ℕ) (lower_name : Text)
    → (p : List ℕ) × (unique_vault_path taken dir lower_name ≡ some p) × (exists taken p ≡ false)
unfolding unique_vault_path
unique_vault_path-ends taken dir lower_name =
    let base = slugify lower_name in
    let (p, e) =
      search-ends dir base (length taken + 1) taken (first_candidate dir base) 2 (omega arith)
        (omega (arith, index-first_candidate dir base)) in
    (p, e, search-free dir base (length taken + 1) taken (first_candidate dir base) 2 p e)
