-- ===== src/Allocator/Allocate.antt =====
-- `allocate` against its specification, `first_free`.
use re_vault.Prelude.{
  ℕ, zero, suc, ◌+◌, ◌-◌, ◌≤◌, ◌<◌, ◌≡◌, refl, sym, ap, ◌∙◌, true, false, not, ◌&&◌, List, [], ◌∷◌,
  ◌++◌, length, length-append, append-nil, append_assoc, All, ◌==◌, arith, min, Bool-cases, inl,
  inr,
}
use re_vault.Allocator.{
  BlockAllocator, is_free, set, free_count, occupied_count, allocate_loop, allocate,
}
use re_vault.Allocator.Valid.{IsValid, set-IsValid, block_count-set, is_free-set}
use re_vault.Allocator.Counts.{
  contains, free_in, first_free, Ascending, first_free_congr, free_in_congr, length-first_free,
  first_free-Ascending, first_free-All, left, free_in-first_free, free_count_lem,
}

-- What one run of the loop must come to, from `out` on.
abbrev wanted : ℕ → ℕ → BlockAllocator → ℕ → List ℕ → List ℕ
wanted n i a count out = first_free (is_free a) n i (count - length out)

record Took (n i : ℕ) (a : BlockAllocator) (count : ℕ) (out : List ℕ) (r : List ℕ × BlockAllocator)
    : Type 0 where
  indices : r.0 ≡ out ++ wanted n i a count out
  blocks : r.1.block_count ≡ a.block_count
  valid : IsValid r.1
  rest : (j : ℕ) → is_free r.1 j ≡ left (is_free a) (wanted n i a count out) j

wanted_full : (n i : ℕ) (a : BlockAllocator) (k : ℕ) → k ≡ 0 → first_free (is_free a) n i k ≡ []
unfolding first_free
wanted_full zero i a k e = refl
wanted_full (suc n) i a zero e = refl
wanted_full (suc n) i a (suc k) e = absurd (omega arith)

Took-nothing :
    (n i : ℕ) (a : BlockAllocator) (count : ℕ) (out : List ℕ)
    → IsValid a
    → wanted n i a count out ≡ []
    → Took n i a count out (out, a)
Took-nothing n i a count out v e = record {
  indices = rw (e, append-nil);
  blocks = refl;
  valid = v;
  rest = λ j. simp e (unfold contains in ground arith);
}

wanted_skipped :
    (n i : ℕ) (a : BlockAllocator) (count : ℕ) (out : List ℕ)
    → is_free a i ≡ false
    → wanted (suc n) i a count out ≡ wanted n (i + 1) a count out
wanted_skipped n i a count out e = go (count - length out)
  where
    go : (k : ℕ) → first_free (is_free a) (suc n) i k ≡ first_free (is_free a) n (i + 1) k
    go zero = wanted_full (suc n) i a 0 refl ∙ sym (wanted_full n (i + 1) a 0 refl)
    go (suc k) = unfold first_free in rw e

wanted_taken :
    (n i : ℕ) (a : BlockAllocator) (count : ℕ) (out : List ℕ)
    → IsValid a
    → i < a.block_count
    → length out < count
    → is_free a i ≡ true
    → wanted (suc n) i a count out ≡ i ∷ wanted n (i + 1) (set a i true) count (out ++ (i ∷ []))
wanted_taken n i a count out v hi room e =
    go (count - length out) (count - length (out ++ (i ∷ [])))
      (omega (arith, length-append out (i ∷ [])))
  where
    same_above : (j : ℕ) → i + 1 ≤ j → is_free a j ≡ is_free (set a i true) j
    same_above j h = ground (arith, is_free-set a i j true v hi)

    go :
        (k k' : ℕ)
        → k ≡ suc k'
        → first_free (is_free a) (suc n) i k ≡ i ∷ first_free (is_free (set a i true)) n (i + 1) k'
    go zero k' h = absurd (omega arith)
    go (suc k) k' h =
        let same : k ≡ k' = omega arith in
        rw same (
          unfold first_free in
          rw (e, first_free_congr (is_free a) (is_free (set a i true)) n (i + 1) k' same_above))

left_taken :
    (a : BlockAllocator) (i j : ℕ) (taken : List ℕ)
    → IsValid a
    → i < a.block_count
    → left (is_free (set a i true)) taken j ≡ left (is_free a) (i ∷ taken) j
unfolding contains
left_taken a i j taken v h = ground (arith, is_free-set a i j true v h)

Took-skipped :
    (n i : ℕ) (a : BlockAllocator) (count : ℕ) (out : List ℕ) {r : List ℕ × BlockAllocator}
    → is_free a i ≡ false
    → Took n (i + 1) a count out r
    → Took (suc n) i a count out r
Took-skipped n i a count out busy t =
    let e = wanted_skipped n i a count out busy in
    record {
      indices = rw e t.indices;
      blocks = t.blocks;
      valid = t.valid;
      rest = λ j. simp e (t.rest j);
    }

Took-taken :
    (n i : ℕ) (a : BlockAllocator) (count : ℕ) (out : List ℕ) {r : List ℕ × BlockAllocator}
    → IsValid a
    → i < a.block_count
    → length out < count
    → is_free a i ≡ true
    → Took n (i + 1) (set a i true) count (out ++ (i ∷ [])) r
    → Took (suc n) i a count out r
Took-taken n i a count out v hi room e t =
    let later = wanted n (i + 1) (set a i true) count (out ++ (i ∷ [])) in
    let w = wanted_taken n i a count out v hi room e in
    record {
      indices = rw w (t.indices ∙ append_assoc out (i ∷ []) later);
      blocks = t.blocks ∙ block_count-set a i true;
      valid = t.valid;
      rest = λ j. simp w (t.rest j ∙ left_taken a i j later v hi);
    }

allocate_loop-Took :
    (n i : ℕ) (a : BlockAllocator) (count : ℕ) (out : List ℕ)
    → IsValid a
    → i + n ≡ a.block_count
    → length out ≤ count
    → Took n i a count out (allocate_loop n i a count out)
unfolding allocate_loop
allocate_loop-Took zero i a count out v hn hc =
    Took-nothing zero i a count out v (unfold first_free in refl)
allocate_loop-Took (suc n) i a count out v hn hc = elim (Bool-cases (length out == count)) [
  | inl full ↦
      rw full (Took-nothing (suc n) i a count out v (wanted_full (suc n) i a _ (ground arith)))
  | inr more ↦ elim (Bool-cases (is_free a i)) [
    | inr busy ↦
        rw (more, busy)
          (Took-skipped n i a count out busy
            (allocate_loop-Took n (i + 1) a count out v (omega arith) hc))
    | inl open' ↦
        rw (more, open')
          (Took-taken n i a count out v (omega arith) (ground arith) open' (
            allocate_loop-Took n (i + 1) (set a i true) count (out ++ (i ∷ []))
              (set-IsValid a i true v) (omega (arith, block_count-set a i true))
              (ground (arith, length-append out (i ∷ [])))))
  ]
]

allocate-Took :
    (a : BlockAllocator) (count : ℕ)
    → IsValid a
    → Took a.block_count 0 a count [] (allocate a count)
unfolding allocate
allocate-Took a count v =
    allocate_loop-Took a.block_count 0 a count [] v (omega arith) (omega arith)

-- The indices that the specification takes.
abbrev taken : BlockAllocator → ℕ → List ℕ
taken a count = first_free (is_free a) a.block_count 0 count

wanted_start : (a : BlockAllocator) (count : ℕ) → wanted a.block_count 0 a count [] ≡ taken a count
wanted_start a count =
    ap (λ k. first_free (is_free a) a.block_count 0 k) {x = count - 0} (omega arith)

allocate-rest :
    (a : BlockAllocator) (count : ℕ)
    → IsValid a
    → (j : ℕ) → is_free (allocate a count).1 j ≡ left (is_free a) (taken a count) j
allocate-rest a count v j =
    (allocate-Took a count v).rest j ∙ ap (λ l. left (is_free a) l j) (wanted_start a count)

-- On a valid bitmap `allocate` returns the first `count` free indices in order.
pub allocate-first_free :
    (a : BlockAllocator) (count : ℕ)
    → IsValid a
    → (allocate a count).0 ≡ first_free (is_free a) a.block_count 0 count
allocate-first_free a count v = (allocate-Took a count v).indices ∙ wanted_start a count

pub allocate-IsValid : (a : BlockAllocator) (count : ℕ) → IsValid a → IsValid (allocate a count).1
allocate-IsValid a count v = (allocate-Took a count v).valid

pub block_count-allocate :
    (a : BlockAllocator) (count : ℕ) → IsValid a → (allocate a count).1.block_count ≡ a.block_count
block_count-allocate a count v = (allocate-Took a count v).blocks

-- On a valid bitmap `allocate` returns as many indices as asked, or all that are free if there are
-- fewer; each was free and in range; they rise strictly; and afterwards an index is free exactly
-- if it was free and is not among them.
pub allocate_lem :
    (a : BlockAllocator) (count : ℕ)
    → IsValid a
    → let (out, a') = allocate a count in
      (length out ≡ min count (free_count a))
      × All (λ j. (is_free a j ≡ true) × (j < a.block_count)) out
      × Ascending 0 out
      × ((j : ℕ) → is_free a' j ≡ (is_free a j && not (contains j out)))
allocate_lem a count v =
    let n = a.block_count in
    let f = is_free a in
    let start : 0 + n ≡ n = omega arith in
    rw (allocate-first_free a count v) (
      omega (arith, length-first_free f n 0 count, free_count_lem a),
      simp start at (first_free-All f n 0 count),
      first_free-Ascending f n 0 count,
      allocate-rest a count v,
    )

free_count-allocate :
    (a : BlockAllocator) (count : ℕ)
    → IsValid a
    → let (out, a') = allocate a count in free_count a' + length out ≡ free_count a
free_count-allocate a count v =
    let n = a.block_count in
    let f = is_free a in
    let g = is_free (allocate a count).1 in
    let same : free_in g n 0 ≡ free_in (left f (taken a count)) n 0 =
      free_in_congr g (left f (taken a count)) n 0 (λ j p q. allocate-rest a count v j) in
    let counted : free_count (allocate a count).1 ≡ free_in g n 0 =
      (free_count_lem (allocate a count).1).0
      ∙ ap (λ k. free_in g k 0) (block_count-allocate a count v) in
    rw (allocate-first_free a count v)
      (omega (arith, same, counted, free_in-first_free f n 0 count, free_count_lem a))

free_count-le : (a : BlockAllocator) → free_count a ≤ a.block_count
unfolding free_count
free_count-le a = omega arith

-- On a valid bitmap `allocate` moves blocks from the free count to the occupied count, one for
-- each index returned, and the two counts together stay the number of blocks.
pub counts-allocate :
    (a : BlockAllocator) (count : ℕ)
    → IsValid a
    → let (out, a') = allocate a count in
      (free_count a' + length out ≡ free_count a)
      × (occupied_count a' ≡ occupied_count a + length out)
      × (free_count a' + occupied_count a' ≡ a.block_count)
unfolding occupied_count
counts-allocate a count v =
    let a' = (allocate a count).1 in
    let moved = free_count-allocate a count v in
    (
      moved,
      omega (arith, moved, free_count-le a, free_count-le a', block_count-allocate a count v),
      omega (arith, moved, free_count-le a, free_count-le a', block_count-allocate a count v),
    )
