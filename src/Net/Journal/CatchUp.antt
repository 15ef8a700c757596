-- ===== src/Net/Journal/CatchUp.antt =====
-- net/journal.rs: `ranges_since` against the history of the file.
use re_vault.Prelude.{
  ℕ, ◌+◌, ◌≤◌, ◌≡◌, refl, sym, ap, ◌∙◌, true, List, [], ◌∷◌, ◌++◌, some, length, ltb, leb, ◌==◌,
  arith, inl, inr, Bool-cases,
}
use re_vault.Vault.State.{Range, replay}
use re_vault.Vault.ChangeLog.Rules.{replay-append}
use re_vault.Net.Journal.{
  Entry, PatchJournal, new, trim, record_patch, combined, covered, ranges_since,
}

length-trim : (capacity : ℕ) (es : List Entry) → length (trim capacity es) ≤ capacity
unfolding trim
length-trim capacity [] = omega arith
length-trim capacity (e ∷ es) = ground (arith, length-trim capacity es)

module _ (file : ℕ → List ℕ) where
  -- The entries from `s` on, one for each number below `n`, each the step of the file at its number.
  pub data Covers : ℕ → List Entry → ℕ → Type 0 where
    nothing : {s : ℕ} → Covers s [] s
    step :
        {s n : ℕ} {es : List Entry} (ranges : List Range)
        → file (s + 1) ≡ replay ranges (file s)
        → Covers (s + 1) es n
        → Covers s ((s, ranges) ∷ es) n

  -- The journals that `record` makes from a new one at the number `first`, with one call for each number
  -- and no gap, the admin's file being `file k` when the chain is at `k`.
  pub data Served (capacity first : ℕ) : PatchJournal → ℕ → Type 0 where
    start : Served capacity first (new capacity) first
    recorded :
        {j : PatchJournal} {n : ℕ}
        → Served capacity first j n
        → (ranges : List Range) → file (n + 1) ≡ replay ranges (file n)
        → Served capacity first (record_patch j n ranges) (n + 1)

  Covers-le : {s n : ℕ} {es : List Entry} → Covers s es n → s + length es ≡ n
  Covers-le nothing = omega arith
  Covers-le (step {s} {n} {es} ranges e c) = omega (arith, Covers-le c)

  Covers-snoc :
      {s n : ℕ} {es : List Entry} (ranges : List Range)
      → file (n + 1) ≡ replay ranges (file n)
      → Covers s es n
      → Covers s (es ++ ((n, ranges) ∷ [])) (n + 1)
  Covers-snoc ranges e nothing = step ranges e nothing
  Covers-snoc ranges e (step r f c) = step r f (Covers-snoc ranges e c)

  nothing_held : (n : ℕ) (es : List Entry) → length es ≤ 0 → (s : ℕ) × Covers s es (n + 1)
  nothing_held n [] h = (n + 1, nothing)
  nothing_held n (e ∷ es) h = absurd (omega arith)

  Covers-trim :
      (capacity : ℕ) {s n : ℕ} {es : List Entry}
      → Covers s es n
      → (t : ℕ) × Covers t (trim capacity es) n
  unfolding trim
  Covers-trim capacity nothing = (_, nothing)
  Covers-trim capacity (step {s} {n} {es} ranges e c) =
      elim (Bool-cases (ltb capacity (length ((s, ranges) ∷ es)))) [
        | inl over ↦ rw (over) (Covers-trim capacity c)
        | inr within ↦ rw (within) (s, step ranges e c)
      ]

  replay-combined_all :
      {s n : ℕ} {es : List Entry} (p : ℕ)
      → Covers s es n
      → p ≤ s
      → replay (combined p es) (file s) ≡ file n
  unfolding combined replay
  replay-combined_all p nothing h = refl
  replay-combined_all p (step {s} {n} {es} ranges e c) h =
      let wanted : leb p s ≡ true = ground (arith, h) in
      rw (wanted) (
        replay-append ranges (combined p es) (file s)
        ∙ ap (replay (combined p es)) (sym e)
        ∙ replay-combined_all p c (omega (arith, h)))

  replay-combined :
      {s n : ℕ} {es : List Entry} (p : ℕ)
      → Covers s es n
      → s ≤ p
      → p ≤ n
      → replay (combined p es) (file p) ≡ file n
  unfolding combined replay
  replay-combined p nothing h k = ap file (let e : p ≡ _ = omega arith in e)
  replay-combined p (step {s} {n} {es} ranges e c) h k = elim (Bool-cases (leb p s)) [
    | inl from ↦
        let same : p ≡ s = ground (arith, from, h) in
        ap (λ k. replay (combined p ((s, ranges) ∷ es)) (file k)) same
        ∙ replay-combined_all p (step ranges e c) (omega (arith, same))
    | inr later ↦ rw (later) (replay-combined p c (ground (arith, later, h)) k)
  ]

  -- The journal never holds more entries than its capacity, which stays as it was made.
  length-Served :
      {capacity first n : ℕ} {j : PatchJournal}
      → Served capacity first j n
      → (length j.entries ≤ capacity) × (j.capacity ≡ capacity)
  unfolding new record_patch
  length-Served start = (omega arith, refl)
  length-Served (recorded {j} {n} r ranges e) =
      let (bound, same) = length-Served r in
      elim (Bool-cases (j.capacity == 0)) [
        | inl none_kept ↦ rw (none_kept) (bound, same)
        | inr kept ↦
            rw (kept)
              (omega (arith, length-trim j.capacity (j.entries ++ ((n, ranges) ∷ [])), same), same)
      ]

  Covers-Served :
      {capacity first n : ℕ} {j : PatchJournal}
      → Served capacity first j n
      → (s : ℕ) × Covers s j.entries n
  unfolding new record_patch
  Covers-Served start = (_, nothing)
  Covers-Served (recorded {j} {n} r ranges e) =
      let (s, c) = Covers-Served r in
      let (bound, same) = length-Served r in
      elim (Bool-cases (j.capacity == 0)) [
        | inl none_kept ↦
            rw (none_kept) (nothing_held n j.entries (ground (arith, bound, same, none_kept)))
        | inr kept ↦ rw (kept) (Covers-trim j.capacity (Covers-snoc ranges e c))
      ]

  replay-covered :
      {s n : ℕ} {es : List Entry} (p : ℕ) (ranges : List Range)
      → Covers s es n
      → p ≤ n
      → covered p es ≡ some ranges
      → replay ranges (file p) ≡ file n
  unfolding covered
  replay-covered p ranges nothing h e = cc
  replay-covered p ranges (step {s} {n} {es} r f c) h e = elim (Bool-cases (ltb p s)) [
    | inl older ↦ ground (arith, older, e)
    | inr newer ↦
        let whole : combined p ((s, r) ∷ es) ≡ ranges = ground (arith, newer, e) in
        ap (λ rs. replay rs (file p)) (sym whole)
        ∙ replay-combined p (step r f c) (ground (arith, newer)) h
  ]

  -- For a journal that started empty at the number `first` and had, for every number from there up to the
  -- current one and with no gap, ranges recorded that make of the file at that number the file at the
  -- next: what `ranges_since` gives for a number `p` that is not past the current one, when it gives
  -- anything, makes of the file at `p` the file at the current number.
  pub replay-ranges_since :
      {capacity first n : ℕ} {j : PatchJournal} (p : ℕ) (ranges : List Range)
      → Served capacity first j n
      → p ≤ n
      → ranges_since j p ≡ some ranges
      → replay ranges (file p) ≡ file n
  unfolding ranges_since
  replay-ranges_since {capacity} {first} {n} {j} p ranges r h e =
      let (s, c) = Covers-Served r in
      elim (Bool-cases (p == 0)) [
        | inl fresh ↦ ground (arith, fresh, e)
        | inr kept ↦ replay-covered p ranges c h (ground (arith, kept, e))
      ]
