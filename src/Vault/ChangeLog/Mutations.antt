-- ===== src/Vault/ChangeLog/Mutations.antt =====
-- core/vault.rs: the methods on blocks, slots and files against the change log.
use re_vault.Prelude.{ℕ, ◌+◌, zero, suc, Bool, List, [], ◌∷◌, none, drop}
use re_vault.Format.ChainRecord.{ChainOp}
use re_vault.Format.FileEntry.{FileEntry}
use re_vault.Format.RecipientSlot.{RecipientSlot}
use re_vault.Vault.State.{Platform}
use re_vault.Vault.Storage.{
  require_admin, write_header, write_bitmap, read_slot, write_slot, read_recipient_slot,
  write_recipient_slot, append_signed_chain_record,
}
use re_vault.Vault.Blocks.{
  walk, write_physical_block, write_index_block, read_physical_block, read_index_block,
  collect_all_blocks,
}
use re_vault.Vault.Content.{write_data, write_index, store_new_content}
use re_vault.Vault.Files.{
  find_slot, find_slot_by_name, find_free_slot, occupied_from, all_occupied_entries, add_file,
  update_file, delete_file,
}
use re_vault.Vault.ChangeLog.Rules.{
  Logged, Logged-pure, Logged-bind, Logged-then, Logged-if, logged,
}

pub Logged-require_admin : Logged require_admin
unfolding require_admin
Logged-require_admin = search logged

module _ (w : Platform) where
  pub Logged-write_header : Logged (write_header w)
  unfolding write_header
  Logged-write_header = search logged

  pub Logged-write_bitmap : Logged (write_bitmap w)
  unfolding write_bitmap
  Logged-write_bitmap = search logged

  pub Logged-append_signed_chain_record :
      (op : ChainOp) (id : ℕ) (hash : List ℕ) → Logged (append_signed_chain_record w op id hash)
  unfolding append_signed_chain_record
  Logged-append_signed_chain_record op id hash = search (logged, Logged-write_header) depth 20

  pub Logged-read_slot : (idx : ℕ) → Logged (read_slot w idx)
  unfolding read_slot
  Logged-read_slot idx = search logged

  pub Logged-write_slot : (idx : ℕ) (entry : FileEntry) → Logged (write_slot w idx entry)
  unfolding write_slot
  Logged-write_slot idx entry = search logged

  pub Logged-read_recipient_slot : (idx : ℕ) → Logged (read_recipient_slot w idx)
  unfolding read_recipient_slot
  Logged-read_recipient_slot idx = search logged

  pub Logged-write_recipient_slot :
      (idx : ℕ) (slot : RecipientSlot) → Logged (write_recipient_slot w idx slot)
  unfolding write_recipient_slot
  Logged-write_recipient_slot idx slot = search logged

  pub Logged-write_physical_block :
      (phys id : ℕ) (plaintext : List ℕ) → Logged (write_physical_block w phys id plaintext)
  unfolding write_physical_block
  Logged-write_physical_block phys id plaintext = search logged depth 20

  pub Logged-read_physical_block : (phys id : ℕ) → Logged (read_physical_block w phys id)
  unfolding read_physical_block
  Logged-read_physical_block phys id = search logged depth 20

  pub Logged-write_index_block :
      (phys id next : ℕ) (indices : List ℕ) → Logged (write_index_block w phys id next indices)
  unfolding write_index_block
  Logged-write_index_block phys id next indices = Logged-write_physical_block _ _ _

  pub Logged-read_index_block : (phys id : ℕ) → Logged (read_index_block w phys id)
  unfolding read_index_block
  Logged-read_index_block phys id = search (logged, Logged-read_physical_block)

  pub Logged-walk :
      (keep : ℕ → List ℕ → List ℕ) (fuel id next : ℕ) → Logged (walk w keep fuel id next)
  unfolding walk
  Logged-walk keep zero id next = search logged
  Logged-walk keep (suc fuel) id next = Logged-if _ (Logged-pure _) (
      Logged-bind (Logged-read_index_block next id)
        (λ (n, is). Logged-bind (Logged-walk keep fuel id n) (λ more. Logged-pure _)))

  pub Logged-collect_all_blocks : (entry : FileEntry) → Logged (collect_all_blocks w entry)
  unfolding collect_all_blocks
  Logged-collect_all_blocks entry = search (logged, Logged-walk) depth 20

  pub Logged-write_data :
      (id len i : ℕ) (bytes blocks : List ℕ) → Logged (write_data w id len i bytes blocks)
  unfolding write_data
  Logged-write_data id len i bytes [] = Logged-pure tt
  Logged-write_data id len i bytes (phys ∷ blocks) =
      Logged-then (Logged-write_physical_block phys id _)
        (Logged-write_data id len (i + 1) bytes blocks)

  pub Logged-write_index :
      (id per : ℕ) (indices blocks : List ℕ) → Logged (write_index w id per indices blocks)
  unfolding write_index
  Logged-write_index id per indices [] = Logged-pure tt
  Logged-write_index id per indices (phys ∷ blocks) =
      Logged-then (Logged-write_index_block phys id _ _)
        (Logged-write_index id per (drop per indices) blocks)

  pub Logged-store_new_content : (id : ℕ) (bytes : List ℕ) → Logged (store_new_content w id bytes)
  unfolding store_new_content
  Logged-store_new_content id bytes =
      search (logged, Logged-write_data, Logged-write_index, Logged-write_bitmap) depth 30

  pub Logged-find_slot : (test : FileEntry → Bool) (n idx : ℕ) → Logged (find_slot w test n idx)
  unfolding find_slot
  Logged-find_slot test zero idx = Logged-pure none
  Logged-find_slot test (suc n) idx =
      Logged-bind (Logged-read_slot idx)
        (λ e. Logged-if _ (Logged-pure _) (Logged-find_slot test n (idx + 1)))

  pub Logged-find_slot_by_name : (name : List ℕ) → Logged (find_slot_by_name w name)
  unfolding find_slot_by_name
  Logged-find_slot_by_name name = search (logged, Logged-find_slot)

  pub Logged-find_free_slot : Logged (find_free_slot w)
  unfolding find_free_slot
  Logged-find_free_slot = search (logged, Logged-find_slot)

  pub Logged-occupied_from : (n idx : ℕ) → Logged (occupied_from w n idx)
  unfolding occupied_from
  Logged-occupied_from zero idx = Logged-pure []
  Logged-occupied_from (suc n) idx =
      Logged-bind (Logged-read_slot idx)
        (λ e. Logged-bind (Logged-occupied_from n (idx + 1)) (λ more. Logged-pure _))

  pub Logged-all_occupied_entries : Logged (all_occupied_entries w)
  unfolding all_occupied_entries
  Logged-all_occupied_entries = search (logged, Logged-occupied_from)

  pub Logged-add_file : (name bytes : List ℕ) → Logged (add_file w name bytes)
  unfolding add_file
  Logged-add_file name bytes =
      search
        (
          logged, Logged-require_admin, Logged-find_slot_by_name, Logged-find_free_slot,
          Logged-store_new_content, Logged-write_slot, Logged-append_signed_chain_record,
        )
        depth 40

  pub Logged-update_file : (name bytes : List ℕ) → Logged (update_file w name bytes)
  unfolding update_file
  Logged-update_file name bytes =
      search
        (
          logged, Logged-require_admin, Logged-find_slot_by_name, Logged-collect_all_blocks,
          Logged-write_bitmap, Logged-store_new_content, Logged-write_slot,
          Logged-append_signed_chain_record,
        )
        depth 40

  pub Logged-delete_file : (name : List ℕ) → Logged (delete_file w name)
  unfolding delete_file
  Logged-delete_file name =
      search
        (
          logged, Logged-require_admin, Logged-find_slot_by_name, Logged-collect_all_blocks,
          Logged-write_bitmap, Logged-write_slot, Logged-append_signed_chain_record,
        )
        depth 40
