-- ===== src/Allocator/Counts.antt =====
-- Counting free blocks, and the specification of allocation: the first free indices in order.
use re_vault.Prelude.{
  ℕ, zero, suc, ◌+◌, ◌≤◌, ◌<◌, ◌≡◌, refl, Bool, true, false, not, ◌&&◌, ◌||◌, List, [], ◌∷◌, length,
  ◌==◌, if◌then◌else◌, arith, All, min, Bool-cases, inl, inr,
}
use re_vault.Allocator.{BlockAllocator, is_free, count_occupied, free_count, occupied_count}

unfoldable pub contains : ℕ → List ℕ → Bool
contains j [] = false
contains j (x ∷ xs) = (x == j) || contains j xs

-- How many of the `n` indices from `i` on pass the test.
unfoldable pub free_in : (ℕ → Bool) → ℕ → ℕ → ℕ
free_in f zero i = 0
free_in f (suc n) i = (if f i then 1 else 0) + free_in f n (i + 1)

-- The first `k` of the `n` indices from `i` on that pass the test.
unfoldable pub first_free : (ℕ → Bool) → ℕ → ℕ → ℕ → List ℕ
first_free f zero i k = []
first_free f (suc n) i zero = []
first_free f (suc n) i (suc k) =
    let taken = first_free f n (i + 1) k in
    let skipped = first_free f n (i + 1) (suc k) in if f i then i ∷ taken else skipped

-- The numbers of a list rise strictly, and start at `i` or above.
abbrev pub Ascending : ℕ → List ℕ → Type 0
Ascending i [] = Unit
Ascending i (x ∷ xs) = (i ≤ x) × Ascending (x + 1) xs

module _ (f g : ℕ → Bool) where
  pub first_free_congr :
      (n i k : ℕ) → ((j : ℕ) → i ≤ j → f j ≡ g j) → first_free f n i k ≡ first_free g n i k
  unfolding first_free
  first_free_congr zero i k h = refl
  first_free_congr (suc n) i zero h = refl
  first_free_congr (suc n) i (suc k) h = ground (
    arith,
    h i (omega arith),
    first_free_congr n (i + 1) k (λ j p. h j (omega arith)),
    first_free_congr n (i + 1) (suc k) (λ j p. h j (omega arith)),
  )

  pub free_in_congr :
      (n i : ℕ) → ((j : ℕ) → i ≤ j → j < i + n → f j ≡ g j) → free_in f n i ≡ free_in g n i
  unfolding free_in
  free_in_congr zero i h = refl
  free_in_congr (suc n) i h =
      ground (arith, h i, free_in_congr n (i + 1) (λ j p q. h j (omega arith) (omega arith)))

module _ (f : ℕ → Bool) where
  first_free_none : (n i : ℕ) → first_free f n i 0 ≡ []
  unfolding first_free
  first_free_none zero i = refl
  first_free_none (suc n) i = refl

  pub length-first_free : (n i k : ℕ) → length (first_free f n i k) ≡ min k (free_in f n i)
  unfolding first_free free_in
  length-first_free zero i k = omega arith
  length-first_free (suc n) i zero = omega arith
  length-first_free (suc n) i (suc k) =
      ground (arith, length-first_free n (i + 1) k, length-first_free n (i + 1) (suc k))

  Ascending-weaken : (i j : ℕ) (xs : List ℕ) → j ≤ i → Ascending i xs → Ascending j xs
  Ascending-weaken i j [] h a = tt
  Ascending-weaken i j (x ∷ xs) h a = (omega arith, a.1)

  pub first_free-Ascending : (n i k : ℕ) → Ascending i (first_free f n i k)
  unfolding first_free
  first_free-Ascending zero i k = tt
  first_free-Ascending (suc n) i zero = tt
  first_free-Ascending (suc n) i (suc k) = ground (
    arith,
    first_free-Ascending n (i + 1) k,
    first_free-Ascending n (i + 1) (suc k),
    Ascending-weaken (i + 1) i (first_free f n (i + 1) (suc k)),
  )

  -- Every index taken passes the test and lies in the range.
  pub first_free-All : (n i k : ℕ) → All (λ j. (f j ≡ true) × (j < i + n)) (first_free f n i k)
  unfolding first_free
  first_free-All zero i k = tt
  first_free-All (suc n) i zero = tt
  first_free-All (suc n) i (suc k) = ground (
    arith,
    widen (first_free f n (i + 1) k) (first_free-All n (i + 1) k),
    widen (first_free f n (i + 1) (suc k)) (first_free-All n (i + 1) (suc k)),
  )
    where
      widen :
          (xs : List ℕ)
          → All (λ j. (f j ≡ true) × (j < i + 1 + n)) xs
          → All (λ j. (f j ≡ true) × (j < i + suc n)) xs
      widen [] h = tt
      widen (x ∷ xs) h = ((h.0.0, omega arith), widen xs h.1)

  pub contains_below : (i j : ℕ) (xs : List ℕ) → Ascending i xs → j < i → contains j xs ≡ false
  unfolding contains
  contains_below i j [] a h = refl
  contains_below i j (x ∷ xs) a h = ground (arith, contains_below (x + 1) j xs a.1 (omega arith))

  first_free_head :
      (n i k : ℕ) → f i ≡ true → first_free f (suc n) i (suc k) ≡ i ∷ first_free f n (i + 1) k
  unfolding first_free
  first_free_head n i k e = rw e

  first_free_skip :
      (n i k : ℕ) → f i ≡ false → first_free f (suc n) i (suc k) ≡ first_free f n (i + 1) (suc k)
  unfolding first_free
  first_free_skip n i k e = rw e

  -- What stays free after `taken` is taken.
  abbrev pub left : List ℕ → ℕ → Bool
  left taken j = f j && not (contains j taken)

  left_head :
      (n i : ℕ) (taken : List ℕ)
      → free_in (left (i ∷ taken)) n (i + 1) ≡ free_in (left taken) n (i + 1)
  left_head n i taken =
      free_in_congr (left (i ∷ taken)) (left taken) n (i + 1)
        (λ j p q. unfold contains in ground arith)

  free_in-untouched :
      (n i : ℕ)
      → free_in (left (first_free f n i 0)) n i + length (first_free f n i 0) ≡ free_in f n i
  free_in-untouched n i =
      let kept : free_in (left []) n i ≡ free_in f n i =
        free_in_congr (left []) f n i (λ j p q. unfold contains in ground arith) in
      simp (first_free_none n i) (omega (arith, kept))

  -- The count `taken` leaves in a range is the count before, less what was taken.
  abbrev Accounts : List ℕ → ℕ → ℕ → Type 0
  Accounts taken n i = free_in (left taken) n i + length taken ≡ free_in f n i

  Accounts-taken :
      (n i : ℕ) (taken : List ℕ)
      → f i ≡ true
      → Accounts taken n (i + 1)
      → Accounts (i ∷ taken) (suc n) i
  unfolding free_in contains
  Accounts-taken n i taken e h = ground (arith, left_head n i taken)

  Accounts-skipped :
      (n i : ℕ) (taken : List ℕ) → f i ≡ false → Accounts taken n (i + 1) → Accounts taken (suc n) i
  unfolding free_in
  Accounts-skipped n i taken e h = ground arith

  -- What is left after taking the first free indices, counted.
  pub free_in-first_free :
      (n i k : ℕ)
      → free_in (left (first_free f n i k)) n i + length (first_free f n i k) ≡ free_in f n i
  free_in-first_free zero i k = unfold first_free free_in in refl
  free_in-first_free (suc n) i zero = free_in-untouched (suc n) i
  free_in-first_free (suc n) i (suc k) = elim (Bool-cases (f i)) [
    | inl e ↦
        simp (first_free_head n i k e)
          (Accounts-taken n i (first_free f n (i + 1) k) e (free_in-first_free n (i + 1) k))
    | inr e ↦ simp (first_free_skip n i k e) (
        Accounts-skipped n i (first_free f n (i + 1) (suc k)) e
          (free_in-first_free n (i + 1) (suc k)))
  ]

count_occupied-add-free_in :
    (a : BlockAllocator) (n i : ℕ) → count_occupied a n i + free_in (is_free a) n i ≡ n
unfolding count_occupied free_in
count_occupied-add-free_in a zero i = refl
count_occupied-add-free_in a (suc n) i = ground (arith, count_occupied-add-free_in a n (i + 1))

pub free_count_lem :
    (a : BlockAllocator)
    → (free_count a ≡ free_in (is_free a) a.block_count 0)
      × (occupied_count a + free_count a ≡ a.block_count)
unfolding free_count occupied_count
free_count_lem a = omega (arith, count_occupied-add-free_in a a.block_count 0)
