-- ===== src/Allocator/Release.antt =====
-- `free`, `mark_occupied`, the bitmap's bytes read back, and which blocks are handed out again.
use re_vault.Prelude.{
  ℕ, zero, suc, ◌-◌, ◌≤◌, ◌<◌, ◌≡◌, refl, sym, ap, ◌∙◌, Bool, true, false, not, ◌&&◌, ◌||◌, List,
  [], ◌∷◌, ◌++◌, length, take, take_all, replicate, append-nil, All, ltb, ◌==◌, arith, Bool-cases,
  inl, inr,
}
use re_vault.Allocator.{
  BlockAllocator, bitmap_len_bytes, from_bytes, as_bytes, is_free, set_in_range, free,
  mark_occupied, allocate,
}
use re_vault.Allocator.Valid.{
  IsValid, is_free-set, block_count-set, set_in_range-IsValid, free-IsValid,
}
use re_vault.Allocator.Counts.{contains, first_free, first_free_congr}
use re_vault.Allocator.Allocate.{
  allocate_lem, allocate-first_free, allocate-IsValid, block_count-allocate,
}

block_count-set_in_range :
    (a : BlockAllocator) (i : ℕ) (b : Bool) → (set_in_range a i b).block_count ≡ a.block_count
unfolding set_in_range
block_count-set_in_range a i b = ground (arith, block_count-set a i b)

is_free_outside : (a : BlockAllocator) (j : ℕ) → a.block_count ≤ j → is_free a j ≡ false
unfolding is_free
is_free_outside a j h = ground arith

is_free-set_in_range-false :
    (a : BlockAllocator) (i j : ℕ)
    → IsValid a
    → is_free (set_in_range a i false) j ≡ (is_free a j || ((i == j) && ltb j a.block_count))
unfolding set_in_range
is_free-set_in_range-false a i j v = ground (arith, is_free-set a i j false v, is_free_outside a j)

is_free-set_in_range-true :
    (a : BlockAllocator) (i j : ℕ)
    → IsValid a
    → is_free (set_in_range a i true) j ≡ (is_free a j && not (i == j))
unfolding set_in_range
is_free-set_in_range-true a i j v = ground (arith, is_free-set a i j true v, is_free_outside a j)

pub block_count-free : (a : BlockAllocator) (is : List ℕ) → (free a is).block_count ≡ a.block_count
unfolding free
block_count-free a [] = refl
block_count-free a (i ∷ is) =
    block_count-free (set_in_range a i false) is ∙ block_count-set_in_range a i false

-- On a valid bitmap an index is free after `free` exactly if it was free before or is in range and
-- among the indices freed.
is_free-free :
    (a : BlockAllocator) (is : List ℕ) (j : ℕ)
    → IsValid a
    → is_free (free a is) j ≡ (is_free a j || (contains j is && ltb j a.block_count))
unfolding free contains
is_free-free a [] j v = ground arith
is_free-free a (i ∷ is) j v =
    let b = set_in_range a i false in
    ground (
      arith,
      is_free-free b is j (set_in_range-IsValid a i false v),
      is_free-set_in_range-false a i j v,
      block_count-set_in_range a i false,
    )

-- On a valid bitmap an index is free after `mark_occupied` exactly if it was free before and is not
-- among the indices marked.
is_free-mark_occupied :
    (a : BlockAllocator) (is : List ℕ) (j : ℕ)
    → IsValid a
    → is_free (mark_occupied a is) j ≡ (is_free a j && not (contains j is))
unfolding mark_occupied contains
is_free-mark_occupied a [] j v = ground arith
is_free-mark_occupied a (i ∷ is) j v =
    let b = set_in_range a i true in
    ground (
      arith,
      is_free-mark_occupied b is j (set_in_range-IsValid a i true v),
      is_free-set_in_range-true a i j v,
    )

-- A valid bitmap written out and read back at the same block count is the same bitmap.
from_bytes-as_bytes : (a : BlockAllocator) → IsValid a → from_bytes (as_bytes a) a.block_count ≡ a
unfolding from_bytes as_bytes
from_bytes-as_bytes a v = λ i. record { bits = whole i; block_count = a.block_count }
  where
    n : ℕ
    n = bitmap_len_bytes a.block_count

    nothing : (k : ℕ) → k ≡ 0 → take n a.bits ++ replicate k 0 ≡ a.bits
    nothing zero e = append-nil (take n a.bits) ∙ take_all a.bits n (omega (arith, v.sized))
    nothing (suc k) e = absurd (omega arith)

    whole : take n a.bits ++ replicate (n - length a.bits) 0 ≡ a.bits
    whole = nothing (n - length a.bits) (omega (arith, v.sized))

contains-All :
    (P : ℕ → Type 0) (j : ℕ) (xs : List ℕ)
    → All P xs
    → contains j xs ≡ true
    → (x : ℕ) × (x ≡ j) × P x
unfolding contains
contains-All P j [] h e = cc
contains-All P j (x ∷ xs) h e = elim (Bool-cases (x == j)) [
  | inl same ↦ (x, ground arith, h.0)
  | inr other ↦ contains-All P j xs h.1 (ground arith)
]

-- Freeing what was just allocated brings every `is_free` back.
is_free-free-allocate :
    (a : BlockAllocator) (count j : ℕ)
    → IsValid a
    → let (out, a') = allocate a count in is_free (free a' out) j ≡ is_free a j
is_free-free-allocate a count j v = elim (Bool-cases (contains j (allocate a count).0)) [
  | inr other ↦ ground (
    arith,
    is_free-free (allocate a count).1 (allocate a count).0 j (allocate-IsValid a count v),
    (allocate_lem a count v).3 j,
  )
  | inl ours ↦
      let (x, e, p) =
        contains-All (λ k. (is_free a k ≡ true) × (k < a.block_count)) j (allocate a count).0
          (allocate_lem a count v).1 ours in
      ground (
        arith,
        is_free-free (allocate a count).1 (allocate a count).0 j (allocate-IsValid a count v),
        block_count-allocate a count v,
        p,
      )
]

-- On a valid bitmap, after the blocks of an allocation are freed the next allocation of the same
-- size returns the same blocks in the same order.
pub allocate-free-allocate :
    (a : BlockAllocator) (count : ℕ)
    → IsValid a
    → let (out, a') = allocate a count in (allocate (free a' out) count).0 ≡ out
allocate-free-allocate a count v =
    let (out, a') = allocate a count in
    let b = free a' out in
    let v' = free-IsValid a' out (allocate-IsValid a count v) in
    let blocks : b.block_count ≡ a.block_count =
      block_count-free a' out ∙ block_count-allocate a count v in
    allocate-first_free b count v'
    ∙ first_free_congr (is_free b) (is_free a) b.block_count 0 count
        (λ j p. is_free-free-allocate a count j v)
    ∙ ap (λ k. first_free (is_free a) k 0 count) blocks
    ∙ sym (allocate-first_free a count v)
