-- ===== src/Allocator/Valid.antt =====
-- The invariant of the bitmap, and what one write does to every `is_free`.
use native.Mathlib.Decide.{ℕ_discrete, dec_lt}
use re_vault.Prelude as P
use re_vault.Prelude.{
  ℕ, zero, suc, ◌+◌, ◌-◌, ◌/◌, ◌%◌, ◌≤◌, ◌<◌, ◌≡◌, refl, Bool, true, false, not, List, [], ◌∷◌,
  ◌++◌, length, get_or, take, replicate, All, All-append, All-take, All-replicate, length-set,
  length-append, length-take, length-replicate, get_or-set_self, get_or-set_ne, leb, ◌==◌, ◌∙◌,
  if◌then◌else◌, arith, IsByte,
}
use re_vault.Allocator.{
  BlockAllocator, bitmap_len_bytes, new, from_bytes, write_bit, is_free, set, set_in_range, free,
  mark_occupied,
}
use re_vault.Allocator.Bits.{write_bit_lem}

-- The bitmap is made of bytes, as many as the block count needs.
pub record IsValid (a : BlockAllocator) : Type 0 where
  pub bytes : All IsByte a.bits
  pub sized : length a.bits ≡ bitmap_len_bytes a.block_count

pub bitmap_covers : (n i : ℕ) → i < n → i / 8 < bitmap_len_bytes n
unfolding bitmap_len_bytes
bitmap_covers n i h = ground arith

get_or-IsByte : (xs : List ℕ) (i : ℕ) → All IsByte xs → get_or xs i 0 < 256
get_or-IsByte [] i h = omega arith
get_or-IsByte (x ∷ xs) zero h = h.0
get_or-IsByte (x ∷ xs) (suc i) h = get_or-IsByte xs i h.1

set-IsByte : (xs : List ℕ) (i v : ℕ) → v < 256 → All IsByte xs → All IsByte (P.set xs i v)
set-IsByte [] i v hv h = tt
set-IsByte (x ∷ xs) zero v hv h = (hv, h.1)
set-IsByte (x ∷ xs) (suc i) v hv h = (h.0, set-IsByte xs i v hv h.1)

pub new-IsValid : (n : ℕ) → IsValid (new n)
unfolding new
new-IsValid n = record {
  bytes = All-replicate IsByte (bitmap_len_bytes n) 0 (omega arith);
  sized = length-replicate (bitmap_len_bytes n) 0;
}

pub from_bytes-IsValid : (bits : List ℕ) (n : ℕ) → All IsByte bits → IsValid (from_bytes bits n)
unfolding from_bytes
from_bytes-IsValid bits n h = record {
  bytes =
      All-append IsByte (take m bits) (replicate (m - length bits) 0) (All-take IsByte m bits h)
        (All-replicate IsByte (m - length bits) 0 (omega arith));
  sized = omega (
    arith,
    length-append (take m bits) (replicate (m - length bits) 0),
    length-take m bits,
    length-replicate {0} {A = ℕ} (m - length bits) 0,
  );
}
  where
    m : ℕ
    m = bitmap_len_bytes n

pub set-IsValid : (a : BlockAllocator) (i : ℕ) (b : Bool) → IsValid a → IsValid (set a i b)
unfolding set
set-IsValid a i b v = record {
  bytes =
      set-IsByte a.bits (i / 8) _
        (write_bit_lem b (i % 8) 0 (get_or a.bits (i / 8) 0) (omega arith) (omega arith)
          (get_or-IsByte a.bits (i / 8) v.bytes)).0
        v.bytes;
  sized = length-set a.bits (i / 8) _ ∙ v.sized;
}

pub block_count-set :
    (a : BlockAllocator) (i : ℕ) (b : Bool) → (set a i b).block_count ≡ a.block_count
unfolding set
block_count-set a i b = refl

-- Writing one bit in range changes `is_free` there and nowhere else.
pub is_free-set :
    (a : BlockAllocator) (i j : ℕ) (b : Bool)
    → IsValid a
    → i < a.block_count
    → is_free (set a i b) j ≡ (if i == j then not b else is_free a j)
unfolding is_free set
is_free-set a i j b v h = elim (dec_lt j a.block_count) [
  | no far ↦ ground arith
  | yes near ↦ elim (ℕ_discrete (i / 8) (j / 8)) [
    | yes same ↦ ground (
      arith,
      get_or-set_self a.bits (i / 8) (write_bit old (i % 8) b) 0 inside,
      write_bit_lem b (i % 8) (j % 8) old (omega arith) (omega arith)
          (get_or-IsByte a.bits (i / 8) v.bytes),
    )
    | no apart ↦
        ground (arith, get_or-set_ne a.bits (i / 8) (j / 8) (write_bit old (i % 8) b) 0 apart)
  ]
]
  where
    old : ℕ
    old = get_or a.bits (i / 8) 0

    inside : i / 8 < length a.bits
    inside = omega (arith, v.sized, bitmap_covers a.block_count i h)

pub set_in_range-IsValid :
    (a : BlockAllocator) (i : ℕ) (b : Bool) → IsValid a → IsValid (set_in_range a i b)
unfolding set_in_range
set_in_range-IsValid a i b v = ground (arith, set-IsValid a i b v)

pub free-IsValid : (a : BlockAllocator) (is : List ℕ) → IsValid a → IsValid (free a is)
unfolding free
free-IsValid a [] v = v
free-IsValid a (i ∷ is) v =
    free-IsValid (set_in_range a i false) is (set_in_range-IsValid a i false v)

pub mark_occupied-IsValid :
    (a : BlockAllocator) (is : List ℕ) → IsValid a → IsValid (mark_occupied a is)
unfolding mark_occupied
mark_occupied-IsValid a [] v = v
mark_occupied-IsValid a (i ∷ is) v =
    mark_occupied-IsValid (set_in_range a i true) is (set_in_range-IsValid a i true v)
