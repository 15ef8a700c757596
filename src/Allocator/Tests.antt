-- ===== src/Allocator/Tests.antt =====
-- The bitmap on small inputs, and the theorems at concrete bitmaps.
use re_vault.Prelude.{ℕ, ◌+◌, ◌<◌, ◌≡◌, refl, true, not, ◌&&◌, [], ◌∷◌, length, All, arith, min}
use re_vault.Allocator.{
  BlockAllocator, bitmap_len_bytes, is_free, set, bit_is_clear, write_bit, free_count,
  occupied_count, allocate, free,
}
use re_vault.Allocator.Valid.{IsValid}
use re_vault.Allocator.Counts.{contains, first_free, Ascending}
use re_vault.Allocator.Allocate.{allocate_lem, counts-allocate, allocate-first_free}
use re_vault.Allocator.Release.{allocate-free-allocate}

-- Ten blocks, of which 0, 2 and 9 are taken.
abbrev used : BlockAllocator
used = record { bits = 5 ∷ 2 ∷ []; block_count = 10 }

used-IsValid : IsValid used
unfolding bitmap_len_bytes
used-IsValid = omega arith

allocate_three : (allocate used 3).0 ≡ 1 ∷ 3 ∷ 4 ∷ []
unfolding allocate is_free set bit_is_clear write_bit
allocate_three = refl

allocate-first_free_example : (allocate used 3).0 ≡ first_free (is_free used) 10 0 3
allocate-first_free_example = allocate-first_free used 3 used-IsValid

allocate_lem_example :
    let (out, a') = allocate used 3 in
    (length out ≡ min 3 (free_count used))
    × All (λ j. (is_free used j ≡ true) × (j < 10)) out
    × Ascending 0 out
    × ((j : ℕ) → is_free a' j ≡ (is_free used j && not (contains j out)))
allocate_lem_example = allocate_lem used 3 used-IsValid

counts-allocate_example :
    let (out, a') = allocate used 3 in
    (free_count a' + length out ≡ free_count used)
    × (occupied_count a' ≡ occupied_count used + length out)
    × (free_count a' + occupied_count a' ≡ 10)
counts-allocate_example = counts-allocate used 3 used-IsValid

allocate-free-allocate_example :
    let (out, a') = allocate used 3 in (allocate (free a' out) 3).0 ≡ out
allocate-free-allocate_example = allocate-free-allocate used 3 used-IsValid
