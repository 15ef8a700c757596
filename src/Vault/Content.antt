-- ===== src/Vault/Content.antt =====
-- core/vault.rs: `store_new_content`, which allocates the blocks of a file and fills them.
use re_vault.Prelude.{
  ℕ, ◌+◌, ◌-◌, ◌*◌, ◌/◌, ◌%◌, ◌^◌, List, [], ◌∷◌, ◌++◌, length, take, drop, replicate, leb, ◌==◌,
  if◌then◌else◌, min, div_ceil,
}
use re_vault.Error.{insufficient_space}
use re_vault.Allocator.{allocate, free_count}
use re_vault.Format.Header.{Header}
use re_vault.Format.FileEntry.{direct_blocks_count}
use re_vault.Vault.State.{Platform, M, ◌>>=◌, ◌>>◌, pure, guard, gets, set_allocator}
use re_vault.Vault.Storage.{write_bitmap}
use re_vault.Vault.Blocks.{
  plain_chunk_len, index_block_capacity, write_physical_block, write_index_block,
}

-- How many data blocks `n` bytes take, and how many index blocks hold what is not direct.
unfoldable pub data_blocks_for : Header → ℕ → ℕ
data_blocks_for h n =
    let chunk_len = plain_chunk_len h in
    if n == 0 then 0 else n / chunk_len + (if n % chunk_len == 0 then 0 else 1)

unfoldable pub index_blocks_for : Header → ℕ → ℕ
index_blocks_for h data_blocks =
    let excess = data_blocks - direct_blocks_count in
    if excess == 0 then 0 else div_ceil excess (index_block_capacity h)

-- The block that each index block points on to, 0 at the end of the chain.
unfoldable pub next_of : List ℕ → ℕ
next_of [] = 0
next_of (b ∷ bs) = b

module _ (w : Platform) where
  -- `for (i, &phys) in data_blocks.iter().enumerate()`, from the `i`-th on
  unfoldable pub write_data : ℕ → ℕ → ℕ → List ℕ → List ℕ → M Unit
  write_data file_id chunk_len i bytes [] = pure tt
  write_data file_id chunk_len i bytes (phys ∷ blocks) = do
    let start = i * chunk_len
    let end = min ((i + 1) * chunk_len) (length bytes)
    write_physical_block w phys file_id (take (end - start) (drop start bytes))
    write_data file_id chunk_len (i + 1) bytes blocks

  -- The chain of index blocks over `indices`, `per_block` to each.
  unfoldable pub write_index : ℕ → ℕ → List ℕ → List ℕ → M Unit
  write_index file_id per_block indices [] = pure tt
  write_index file_id per_block indices (phys ∷ blocks) = do
    write_index_block w phys file_id (next_of blocks) (take per_block indices)
    write_index file_id per_block (drop per_block indices) blocks

  -- The direct blocks, the first overflow block, and how many blocks are used.
  unfoldable pub store_new_content : ℕ → List ℕ → M (List ℕ × ℕ × ℕ)
  store_new_content file_id bytes = do
    h ← gets (λ v. v.header)
    let chunk_len = plain_chunk_len h
    let data_blocks_needed = data_blocks_for h (length bytes)
    let index_blocks_needed = index_blocks_for h data_blocks_needed
    let total_needed = data_blocks_needed + index_blocks_needed
    a ← gets (λ v. v.allocator)
    guard (leb total_needed (free_count a))
        (insufficient_space (total_needed * h.block_size) (free_count a * h.block_size))
    set_allocator (allocate a total_needed).1
    let allocated = (allocate a total_needed).0
    let data_blocks = take data_blocks_needed allocated
    let index_blocks = drop data_blocks_needed allocated
    write_data file_id chunk_len 0 bytes data_blocks
    let direct_needed = min data_blocks_needed direct_blocks_count
    let direct = take direct_needed data_blocks
    let beyond = drop direct_needed data_blocks
    (if data_blocks_needed - direct_blocks_count == 0
        then pure tt
        else write_index file_id (index_block_capacity h) beyond index_blocks)
    write_bitmap w
    let overflow_block =
        if data_blocks_needed - direct_blocks_count == 0 then 0 else next_of index_blocks
    pure (
      direct ++ replicate (direct_blocks_count - direct_needed) 0,
      overflow_block,
      total_needed % 2 ^ 32,
    )
