-- ===== src/Allocator.antt =====
-- core/allocator.rs: the block bitmap, one bit a block, the low bit of each byte first.
-- A byte is a number below 256. `get_or` and `Prelude.set` stand for `bits[i]`, which the code only
-- reaches in range: `IsValid` fixes the length of the bitmap.
pub mod Bits
pub mod Valid
pub mod Counts
pub mod Allocate
pub mod Release
mod Tests
use re_vault.Prelude as P
use re_vault.Prelude.{
  ℕ, zero, suc, ◌+◌, ◌-◌, ◌/◌, ◌%◌, ◌^◌, Bool, true, false, List, [], ◌∷◌, ◌++◌, length, get_or,
  take, replicate, leb, ◌==◌, if◌then◌else◌, bit_and, bit_or, div_ceil,
}

pub record BlockAllocator : Type 0 where
  pub bits : List ℕ
  pub block_count : ℕ

unfoldable pub bitmap_len_bytes : ℕ → ℕ
bitmap_len_bytes block_count = div_ceil block_count 8

unfoldable pub new : ℕ → BlockAllocator
new block_count = record {
  bits = replicate (bitmap_len_bytes block_count) 0;
  block_count = block_count;
}

-- `bits.resize(needed, 0)` cuts a longer bitmap and pads a shorter one.
unfoldable pub from_bytes : List ℕ → ℕ → BlockAllocator
from_bytes bits block_count =
    let needed = bitmap_len_bytes block_count in
    record {
      bits = take needed bits ++ replicate (needed - length bits) 0;
      block_count = block_count;
    }

unfoldable pub as_bytes : BlockAllocator → List ℕ
as_bytes a = a.bits

-- `(byte >> k) & 1 == 0`
unfoldable pub bit_is_clear : ℕ → ℕ → Bool
bit_is_clear byte k = bit_and (byte / 2 ^ k) 1 == 0

unfoldable pub is_free : BlockAllocator → ℕ → Bool
is_free a index =
    if leb a.block_count index
    then false
    else bit_is_clear (get_or a.bits (index / 8) 0) (index % 8)

-- `*byte |= mask` and `*byte &= !mask`, with `mask = 1u8 << k`.
unfoldable pub write_bit : ℕ → ℕ → Bool → ℕ
write_bit byte k occupied = if occupied then bit_or byte (2 ^ k) else bit_and byte (255 - 2 ^ k)

unfoldable pub set : BlockAllocator → ℕ → Bool → BlockAllocator
set a index occupied = record a {
  bits = P.set a.bits (index / 8) (write_bit (get_or a.bits (index / 8) 0) (index % 8) occupied);
}

-- The indices from `i` on, `rounds` of them, that are not free.
count_occupied : BlockAllocator → ℕ → ℕ → ℕ
count_occupied a zero i = 0
count_occupied a (suc rounds) i = (if is_free a i then 0 else 1) + count_occupied a rounds (i + 1)

unfoldable pub free_count : BlockAllocator → ℕ
unfolding count_occupied
free_count a = a.block_count - count_occupied a a.block_count 0

unfoldable pub occupied_count : BlockAllocator → ℕ
occupied_count a = a.block_count - free_count a

-- `for i in 0..block_count` with `rounds` still to go; the `break` returns.
allocate_loop : ℕ → ℕ → BlockAllocator → ℕ → List ℕ → List ℕ × BlockAllocator
allocate_loop zero i a count out = (out, a)
allocate_loop (suc rounds) i a count out =
    let taken = allocate_loop rounds (i + 1) (set a i true) count (out ++ (i ∷ [])) in
    let skipped = allocate_loop rounds (i + 1) a count out in
    if length out == count then (out, a) else if is_free a i then taken else skipped

unfoldable pub allocate : BlockAllocator → ℕ → List ℕ × BlockAllocator
unfolding allocate_loop
allocate a count = allocate_loop a.block_count 0 a count []

-- One round of the loops of `free` and `mark_occupied`.
unfoldable pub set_in_range : BlockAllocator → ℕ → Bool → BlockAllocator
set_in_range a i occupied = if leb a.block_count i then a else set a i occupied

unfoldable pub free : BlockAllocator → List ℕ → BlockAllocator
free a [] = a
free a (i ∷ indices) = free (set_in_range a i false) indices

unfoldable pub mark_occupied : BlockAllocator → List ℕ → BlockAllocator
mark_occupied a [] = a
mark_occupied a (i ∷ indices) = mark_occupied (set_in_range a i true) indices
