-- ===== src/Net/Journal/Entries.antt =====
-- net/journal.rs: the entries in the order of their numbers, and what they cover.
use re_vault.Prelude.{
  ℕ, ◌+◌, ◌≤◌, ◌<◌, ◌≡◌, refl, sym, ap, ◌∙◌, true, false, List, [], ◌∷◌, ◌++◌, some, length, ltb,
  leb, append-nil, append_assoc, Bool-cases, ◌⊎◌, inl, inr, arith,
}
use re_vault.Vault.State.{Range}
use re_vault.Net.Journal.{Entry, trim, combined, covered}

-- The entries' numbers increase, from `lo` on and below `hi`.
abbrev pub Increasing : List Entry → ℕ → ℕ → Type 0
Increasing [] lo hi = lo ≤ hi
Increasing ((s, r) ∷ es) lo hi = (lo ≤ s) × Increasing es (s + 1) hi

pub Increasing-weaken :
    (es : List Entry) (lo lo' hi : ℕ) → lo' ≤ lo → Increasing es lo hi → Increasing es lo' hi
Increasing-weaken [] lo lo' hi h i = omega (arith, h, i)
Increasing-weaken ((s, r) ∷ es) lo lo' hi h (a, i) = (omega (arith, h, a), i)

pub Increasing-le : (es : List Entry) (lo hi : ℕ) → Increasing es lo hi → lo ≤ hi
Increasing-le [] lo hi i = i
Increasing-le ((s, r) ∷ es) lo hi (a, i) = omega (arith, a, Increasing-le es (s + 1) hi i)

pub Increasing-raise :
    (es : List Entry) (lo hi hi' : ℕ) → hi ≤ hi' → Increasing es lo hi → Increasing es lo hi'
Increasing-raise [] lo hi hi' h i = omega (arith, h, i)
Increasing-raise ((s, r) ∷ es) lo hi hi' h (a, i) = (a, Increasing-raise es (s + 1) hi hi' h i)

pub Increasing-snoc :
    (es : List Entry) (lo n hi : ℕ) (rs : List Range)
    → n < hi
    → Increasing es lo n
    → Increasing (es ++ ((n, rs) ∷ [])) lo hi
Increasing-snoc [] lo n hi rs h i = (i, omega (arith, h))
Increasing-snoc ((s, r) ∷ es) lo n hi rs h (a, i) = (a, Increasing-snoc es (s + 1) n hi rs h i)

pub Increasing-trim :
    (capacity : ℕ) (es : List Entry) (lo hi : ℕ)
    → Increasing es lo hi
    → Increasing (trim capacity es) lo hi
unfolding trim
Increasing-trim capacity [] lo hi i = i
Increasing-trim capacity ((s, r) ∷ es) lo hi (a, i) =
    elim (Bool-cases (ltb capacity (length ((s, r) ∷ es)))) [
      | inl over ↦ rw (over) (
          Increasing-trim capacity es lo hi
            (Increasing-weaken es (s + 1) lo hi (omega (arith, a)) i))
      | inr within ↦ rw (within) (a, i)
    ]

pub combined-older :
    (p : ℕ) (es : List Entry) (lo hi : ℕ) → hi ≤ p → Increasing es lo hi → combined p es ≡ []
unfolding combined
combined-older p [] lo hi h i = refl
combined-older p ((s, r) ∷ es) lo hi h (a, i) =
    let skipped : leb p s ≡ false = ground (arith, h, Increasing-le es (s + 1) hi i) in
    rw (skipped) (combined-older p es (s + 1) hi h i)

-- What is covered once the oldest entry is dropped was covered with it, with the same ranges.
pub covered-drop :
    (p s : ℕ) (r : List Range) (es : List Entry) (hi : ℕ) (rs : List Range)
    → Increasing es (s + 1) hi
    → covered p es ≡ some rs
    → covered p ((s, r) ∷ es) ≡ some rs
unfolding covered combined
covered-drop p s r [] hi rs i e = cc
covered-drop p s r ((t, q) ∷ es) hi rs (a, i) e = elim (Bool-cases (ltb p t)) [
  | inl older ↦ cc (rw (older) at e)
  | inr newer ↦
      let later : ltb p s ≡ false = ground (arith, newer, a) in
      let skipped : leb p s ≡ false = ground (arith, newer, a) in
      rw (later, skipped) (rw (newer) at e)
]

pub covered-trim :
    (p capacity : ℕ) (es : List Entry) (lo hi : ℕ) (rs : List Range)
    → Increasing es lo hi
    → covered p (trim capacity es) ≡ some rs
    → covered p es ≡ some rs
unfolding trim
covered-trim p capacity [] lo hi rs i e = e
covered-trim p capacity ((s, r) ∷ es) lo hi rs (a, i) e =
    elim (Bool-cases (ltb capacity (length ((s, r) ∷ es)))) [
      | inl over ↦
          covered-drop p s r es hi rs i
            (covered-trim p capacity es (s + 1) hi rs i (rw (over) at e))
      | inr within ↦ rw (within) at e
    ]

pub combined-snoc :
    (p n : ℕ) (es : List Entry) (rs : List Range)
    → p ≤ n
    → combined p (es ++ ((n, rs) ∷ [])) ≡ combined p es ++ rs
unfolding combined
combined-snoc p n [] rs h =
    let wanted : leb p n ≡ true = ground (arith, h) in rw (wanted) (append-nil rs)
combined-snoc p n ((s, r) ∷ es) rs h = elim (Bool-cases (leb p s)) [
  | inl from ↦
      rw (from)
        (ap (λ x. r ++ x) (combined-snoc p n es rs h) ∙ sym (append_assoc r (combined p es) rs))
  | inr later ↦ rw (later) (combined-snoc p n es rs h)
]

some_inv : {a b : List Range} → some a ≡ some b → a ≡ b
some_inv e = cc

-- The newest entry adds its ranges to what was covered, or covers its own number alone.
pub covered-snoc :
    (p n : ℕ) (es : List Entry) (rs given : List Range)
    → p ≤ n
    → covered p (es ++ ((n, rs) ∷ [])) ≡ some given
    → ((r : List Range) × (covered p es ≡ some r) × (given ≡ r ++ rs)) ⊎ ((n ≡ p) × (given ≡ rs))
unfolding covered combined
covered-snoc p n [] rs given h e = elim (Bool-cases (ltb p n)) [
  | inl older ↦ cc (rw (older) at e)
  | inr newer ↦
      let whole : combined p ((n, rs) ∷ []) ≡ given = some_inv (rw (newer) at e) in
      inr (ground (arith, newer, h), sym whole ∙ combined-snoc p n [] rs h)
]
covered-snoc p n ((s, r) ∷ es) rs given h e = elim (Bool-cases (ltb p s)) [
  | inl older ↦ cc (rw (older) at e)
  | inr newer ↦
      let whole : combined p (((s, r) ∷ es) ++ ((n, rs) ∷ [])) ≡ given =
        some_inv (rw (newer) at e) in
      rw (newer) (inl (_, refl, sym whole ∙ combined-snoc p n ((s, r) ∷ es) rs h))
]

pub covered-older :
    (p : ℕ) (es : List Entry) (lo hi : ℕ) (rs : List Range)
    → hi ≤ p
    → Increasing es lo hi
    → covered p es ≡ some rs
    → rs ≡ []
unfolding covered
covered-older p [] lo hi rs h i e = cc
covered-older p ((s, r) ∷ es) lo hi rs h i e = elim (Bool-cases (ltb p s)) [
  | inl older ↦ cc (rw (older) at e)
  | inr newer ↦ sym (some_inv (rw (newer) at e)) ∙ combined-older p ((s, r) ∷ es) lo hi h i
]

pub covered-now :
    (p : ℕ) (es : List Entry) → Increasing es 0 p → 0 < length es → covered p es ≡ some []
unfolding covered
covered-now p [] i h = absurd (omega (arith, h))
covered-now p ((s, r) ∷ es) i h =
    let within : ltb p s ≡ false = ground (arith, Increasing-le es (s + 1) p i.1) in
    rw (within) (ap some (combined-older p ((s, r) ∷ es) 0 p (omega arith) i))
