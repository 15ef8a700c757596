-- ===== src/Vault/Files.antt =====
-- core/vault.rs: the file table and the operations on files. A name is its UTF-8 bytes.
use re_vault.Prelude.{
  ℕ, zero, suc, ◌+◌, ◌*◌, Bool, true, false, not, ◌&&◌, ◌||◌, List, [], ◌∷◌, ◌++◌, map, Option,
  none, some, length, take, ltb, leb, ◌==◌, if◌then◌else◌, bytes_eq,
}
use re_vault.Error.{
  field_too_long, file_already_exists, file_table_full, file_not_found, integrity_violation,
  insufficient_space,
}
use re_vault.Allocator.{free, free_count}
use re_vault.Format.FileEntry.{
  FileEntry, is_occupied, entry_flag_occupied, entry_flag_deleted, max_filename_len,
}
use re_vault.Format.ChainRecord.{file_added, file_updated, file_deleted}
use re_vault.Vault.State.{
  Platform, M, ◌>>=◌, ◌>>◌, pure, or_raise, guard, gets, set_allocator, draw,
}
use re_vault.Vault.Storage.{
  require_admin, read_slot, write_slot, write_bitmap, append_signed_chain_record,
}
use re_vault.Vault.Blocks.{read_physical_block, collect_data_blocks, collect_all_blocks}
use re_vault.Vault.Content.{data_blocks_for, index_blocks_for, store_new_content}

pub record FileInfo : Type 0 where
  pub name : List ℕ
  pub size : ℕ
  pub created_at : ℕ
  pub modified_at : ℕ

abbrev pub info_of : FileEntry → FileInfo
info_of e = record {
  name = e.name;
  size = e.size;
  created_at = e.created_at;
  modified_at = e.modified_at;
}

abbrev pub has_name : List ℕ → FileEntry → Bool
has_name name e = is_occupied e && bytes_eq e.name name

abbrev pub is_absent : Option (ℕ × FileEntry) → Bool
is_absent none = true
is_absent (some found) = false

module _ (w : Platform) where
  -- The first slot that passes the test, over `rounds` slots from `idx` on.
  unfoldable pub find_slot : (FileEntry → Bool) → ℕ → ℕ → M (Option (ℕ × FileEntry))
  find_slot test zero idx = pure none
  find_slot test (suc rounds) idx = do
    entry ← read_slot w idx
    if test entry then pure (some (idx, entry)) else find_slot test rounds (idx + 1)

  unfoldable pub find_slot_by_name : List ℕ → M (Option (ℕ × FileEntry))
  find_slot_by_name name = do h ← gets (λ v. v.header); find_slot (has_name name) h.max_files 0

  -- The slot's entry comes with its index; the code keeps the index.
  unfoldable pub find_free_slot : M (Option (ℕ × FileEntry))
  find_free_slot = do h ← gets (λ v. v.header); find_slot (λ e. not (is_occupied e)) h.max_files 0

  unfoldable pub occupied_from : ℕ → ℕ → M (List (ℕ × FileEntry))
  occupied_from zero idx = pure []
  occupied_from (suc rounds) idx = do
    entry ← read_slot w idx
    more ← occupied_from rounds (idx + 1)
    pure (if is_occupied entry then (idx, entry) ∷ more else more)

  unfoldable pub all_occupied_entries : M (List (ℕ × FileEntry))
  all_occupied_entries = do h ← gets (λ v. v.header); occupied_from h.max_files 0

  unfoldable pub list_files : M (List FileInfo)
  list_files = do entries ← all_occupied_entries; pure (map (λ entry. info_of entry.1) entries)

  unfoldable pub add_file : List ℕ → List ℕ → M Unit
  add_file name bytes = do
    require_admin
    guard (not ((length name == 0) || ltb max_filename_len (length name))) field_too_long
    existing ← find_slot_by_name name
    guard (is_absent existing) (file_already_exists name)
    free_slot ← find_free_slot
    (slot, old) ← or_raise free_slot file_table_full
    file_id ← draw w.uuid
    (direct, overflow, used) ← store_new_content w file_id bytes
    let file_hash = w.crypto.sha256 bytes
    ts ← draw w.now
    write_slot w slot (record {
      id = file_id;
      name = name;
      size = length bytes;
      blocks_used = used;
      direct_blocks = direct;
      overflow_block = overflow;
      file_hash = file_hash;
      created_at = ts;
      modified_at = ts;
      flags = entry_flag_occupied;
    })
    append_signed_chain_record w file_added file_id file_hash

  -- `for &phys in &blocks`: the chunks, joined.
  unfoldable pub read_chunks : ℕ → List ℕ → M (List ℕ)
  read_chunks file_id [] = pure []
  read_chunks file_id (phys ∷ blocks) = do
    chunk ← read_physical_block w phys file_id
    more ← read_chunks file_id blocks
    pure (chunk ++ more)

  unfoldable pub read_file : List ℕ → M (List ℕ)
  read_file name = do
    found ← find_slot_by_name name
    (slot, entry) ← or_raise found (file_not_found name)
    if entry.size == 0
        then (do
          guard (bytes_eq entry.file_hash (w.crypto.sha256 []))
              (integrity_violation "empty file hash mismatch")
          pure [])
        else (do
          blocks ← collect_data_blocks w entry
          chunks ← read_chunks entry.id blocks
          let out = take entry.size chunks
          guard (bytes_eq (w.crypto.sha256 out) entry.file_hash) (
              integrity_violation
                "file contents do not match stored hash (corruption or tampering)")
          pure out)

  unfoldable pub update_file : List ℕ → List ℕ → M Unit
  update_file name bytes = do
    require_admin
    found ← find_slot_by_name name
    (slot, old) ← or_raise found (file_not_found name)
    old_blocks ← collect_all_blocks w old
    h ← gets (λ v. v.header)
    a ← gets (λ v. v.allocator)
    let data_blocks = data_blocks_for h (length bytes)
    let total_needed = data_blocks + index_blocks_for h data_blocks
    let available = free_count a + length old_blocks
    guard (leb total_needed available)
        (insufficient_space (total_needed * h.block_size) (available * h.block_size))
    set_allocator (free a old_blocks)
    write_bitmap w
    (direct, overflow, used) ← store_new_content w old.id bytes
    let file_hash = w.crypto.sha256 bytes
    ts ← draw w.now
    write_slot w slot (record {
      id = old.id;
      name = old.name;
      size = length bytes;
      blocks_used = used;
      direct_blocks = direct;
      overflow_block = overflow;
      file_hash = file_hash;
      created_at = old.created_at;
      modified_at = ts;
      flags = entry_flag_occupied;
    })
    append_signed_chain_record w file_updated old.id file_hash

  unfoldable pub delete_file : List ℕ → M Unit
  delete_file name = do
    require_admin
    found ← find_slot_by_name name
    (slot, entry) ← or_raise found (file_not_found name)
    blocks ← collect_all_blocks w entry
    a ← gets (λ v. v.allocator)
    set_allocator (free a blocks)
    write_bitmap w
    write_slot w slot (record entry { flags = entry_flag_deleted })
    append_signed_chain_record w file_deleted entry.id (w.crypto.sha256 entry.name)
