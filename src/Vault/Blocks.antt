-- ===== src/Vault/Blocks.antt =====
-- core/vault.rs: encrypted data blocks and the index blocks of the overflow chain. Lengths are `u64`
-- and `usize` of 64 bits; their subtractions wrap as in a release build.
pub mod RoundTrip
use re_vault.Prelude.{
  ℕ, zero, suc, ◌+◌, ◌-◌, ◌*◌, ◌/◌, ◌%◌, ◌^◌, not, List, [], ◌∷◌, ◌++◌, length, take, drop,
  replicate, ltb, leb, ◌==◌, if◌then◌else◌, to_le_bytes, from_le_bytes, min, div_ceil,
}
use re_vault.Error as Error
use re_vault.Error.{corrupt_container, Result, ok, err}
use re_vault.Crypto.Keys.{encrypt_block, decrypt_block}
use re_vault.Format.Header.{Header}
use re_vault.Format.FileEntry.{FileEntry, direct_blocks_count, put_u64s}
use re_vault.Vault.State.{
  Platform, Vault, M, ◌>>=◌, ◌>>◌, pure, lift, guard, diverge, gets, offset_u64, read_at, write_at,
}

-- A 4-byte length and a 16-byte tag in each block.
abbrev pub block_framing_overhead : ℕ
block_framing_overhead = 20

abbrev pub index_block_header : ℕ
index_block_header = 12

-- `a - b` on `u64`
abbrev pub sub_u64 : ℕ → ℕ → ℕ
sub_u64 a b = (a + 2 ^ 64 - b) % 2 ^ 64

unfoldable pub plain_chunk_len : Header → ℕ
plain_chunk_len h = sub_u64 h.block_size block_framing_overhead

unfoldable pub index_block_capacity : Header → ℕ
index_block_capacity h = sub_u64 (plain_chunk_len h) index_block_header / 8

unfoldable pub block_offset : Header → ℕ → ℕ
block_offset h physical_idx = offset_u64 h.data_offset physical_idx h.block_size

-- The bytes of a block: the plaintext's length, the ciphertext, zeros.
unfoldable pub block_frame : ℕ → List ℕ → List ℕ → List ℕ
block_frame block_size plaintext ciphertext =
    to_le_bytes 4 (length plaintext)
    ++ (ciphertext ++ replicate (block_size - (4 + length ciphertext)) 0)

-- The index block's payload: the next block of the chain, the count, the indices.
unfoldable pub index_payload : ℕ → List ℕ → List ℕ
index_payload next indices =
    to_le_bytes 8 next ++ (to_le_bytes 4 (length indices) ++ put_u64s indices)

-- `for _ in 0..count`, from the payload's bytes not yet read
unfoldable pub read_indices : ℕ → List ℕ → Result (List ℕ)
read_indices zero rest = ok []
read_indices (suc count) rest =
    if ltb (length rest) 8
    then err (corrupt_container "overflow index block truncated")
    else elim (read_indices count (drop 8 rest)) [
      | ok more ↦ ok (from_le_bytes (take 8 rest) ∷ more)
      | err e ↦ err e
    ]

unfoldable pub parse_index : List ℕ → Result (ℕ × List ℕ)
parse_index payload =
    if ltb (length payload) index_block_header
    then err (corrupt_container "overflow index block too short")
    else elim (read_indices (from_le_bytes (take 4 (drop 8 payload))) (drop 12 payload)) [
      | ok indices ↦ ok (from_le_bytes (take 8 payload), indices)
      | err e ↦ err e
    ]

-- The ciphertext that a block's bytes hold, and the checks of its length.
unfoldable pub block_ciphertext : ℕ → List ℕ → Result (List ℕ)
block_ciphertext block_size buf =
    let plain_len = from_le_bytes (take 4 buf) in
    if ltb block_size (4 + plain_len)
    then err (corrupt_container "stored block length exceeds block size")
    else if ltb (length (drop 4 buf)) (plain_len + 16)
    then err (corrupt_container "stored block truncated")
    else ok (take (plain_len + 16) (drop 4 buf))

-- More rounds than the file has bytes, so more than there are blocks that can be read.
unfoldable pub walk_fuel : Vault → ℕ
walk_fuel v = length v.file + 1

unfoldable pub data_block_count : Header → ℕ → ℕ
data_block_count h size = if size == 0 then 0 else div_ceil size (plain_chunk_len h)

module _ (w : Platform) where
  unfoldable pub write_physical_block : ℕ → ℕ → List ℕ → M Unit
  write_physical_block physical_idx file_id plaintext = do
    key ← gets (λ v. v.key)
    ciphertext ← lift (encrypt_block w.crypto key file_id physical_idx plaintext)
    h ← gets (λ v. v.header)
    guard (leb (4 + length ciphertext) h.block_size)
        (corrupt_container "encrypted chunk exceeds block size")
    write_at (block_offset h physical_idx) (block_frame h.block_size plaintext ciphertext)

  unfoldable pub read_physical_block : ℕ → ℕ → M (List ℕ)
  read_physical_block physical_idx file_id = do
    h ← gets (λ v. v.header)
    buf ← read_at (block_offset h physical_idx) h.block_size
    ciphertext ← lift (block_ciphertext h.block_size buf)
    key ← gets (λ v. v.key)
    lift (decrypt_block w.crypto key file_id physical_idx ciphertext)

  unfoldable pub write_index_block : ℕ → ℕ → ℕ → List ℕ → M Unit
  write_index_block physical_idx file_id next indices =
      write_physical_block physical_idx file_id (index_payload next indices)

  unfoldable pub read_index_block : ℕ → ℕ → M (ℕ × List ℕ)
  read_index_block physical_idx file_id = do
    payload ← read_physical_block physical_idx file_id
    lift (parse_index payload)

  -- `while next != 0`: what `keep` takes of each index block, in order.
  unfoldable pub walk : (ℕ → List ℕ → List ℕ) → ℕ → ℕ → ℕ → M (List ℕ)
  walk keep zero file_id next = if next == 0 then pure [] else diverge
  walk keep (suc fuel) file_id next = if next == 0 then pure [] else do
    (n, indices) ← read_index_block next file_id
    more ← walk keep fuel file_id n
    pure (keep next indices ++ more)

  unfoldable pub collect_data_blocks : FileEntry → M (List ℕ)
  collect_data_blocks entry = do
    h ← gets (λ v. v.header)
    let count = data_block_count h entry.size
    let direct = take (min count direct_blocks_count) entry.direct_blocks
    fuel ← gets walk_fuel
    overflow ← walk (λ next indices. indices) fuel entry.id entry.overflow_block
    guard (length (direct ++ overflow) == count)
        (corrupt_container "file entry block count does not match recorded size")
    pure (direct ++ overflow)

  unfoldable pub collect_all_blocks : FileEntry → M (List ℕ)
  collect_all_blocks entry = do
    h ← gets (λ v. v.header)
    let count = data_block_count h entry.size
    let direct = take (min count direct_blocks_count) entry.direct_blocks
    fuel ← gets walk_fuel
    overflow ← walk (λ next indices. next ∷ indices) fuel entry.id entry.overflow_block
    pure (direct ++ overflow)
