-- ===== src/Vault/ChainCount/Methods.antt =====
-- core/vault.rs: the methods on blocks, slots and files against the chain's next number.
use re_vault.Prelude.{
  ℕ, ◌+◌, zero, suc, Bool, List, [], ◌∷◌, none, drop, refl, Option-cases, inl, inr,
}
use re_vault.Format.ChainRecord.{ChainOp}
use re_vault.Format.FileEntry.{FileEntry}
use re_vault.Format.RecipientSlot.{RecipientSlot}
use re_vault.Vault.State.{Platform, ◌>>=◌, ◌>>◌, gets, or_raise, draw, write_at, set_header}
use re_vault.Vault.Storage.{
  require_admin, write_header, write_bitmap, read_slot, write_slot, read_recipient_slot,
  write_recipient_slot, append_signed_chain_record,
}
use re_vault.Vault.Blocks.{
  walk, write_physical_block, write_index_block, read_physical_block, read_index_block,
  collect_all_blocks,
}
use re_vault.Vault.Content.{write_data, write_index, store_new_content}
use re_vault.Vault.Files.{
  find_slot, find_slot_by_name, find_free_slot, occupied_from, all_occupied_entries, add_file,
  update_file, delete_file,
}
use re_vault.Vault.ChainCount.Rules.{
  Steady, Counts, counts, Steady-pure, Steady-bind, Steady-then, Steady-if, steady,
}

pub Steady-require_admin : Steady require_admin
unfolding require_admin
Steady-require_admin = search steady

module _ (w : Platform) where
  pub Steady-write_header : Steady (write_header w)
  unfolding write_header
  Steady-write_header = search steady

  pub Steady-write_bitmap : Steady (write_bitmap w)
  unfolding write_bitmap
  Steady-write_bitmap = search steady

  pub Counts-append_signed_chain_record :
      (op : ChainOp) (id : ℕ) (hash : List ℕ) → Counts (append_signed_chain_record w op id hash)
  unfolding append_signed_chain_record ◌>>=◌ ◌>>◌ gets or_raise draw write_at set_header
      write_header
  Counts-append_signed_chain_record op id hash = record {
    seq = λ v. elim (Option-cases v.admin_identity) [
      | inl none_held ↦ rw (none_held) refl
      | inr (admin, held) ↦ rw (held) refl
    ];
  }

  pub Steady-read_slot : (idx : ℕ) → Steady (read_slot w idx)
  unfolding read_slot
  Steady-read_slot idx = search steady

  pub Steady-write_slot : (idx : ℕ) (entry : FileEntry) → Steady (write_slot w idx entry)
  unfolding write_slot
  Steady-write_slot idx entry = search steady

  pub Steady-read_recipient_slot : (idx : ℕ) → Steady (read_recipient_slot w idx)
  unfolding read_recipient_slot
  Steady-read_recipient_slot idx = search steady

  pub Steady-write_recipient_slot :
      (idx : ℕ) (slot : RecipientSlot) → Steady (write_recipient_slot w idx slot)
  unfolding write_recipient_slot
  Steady-write_recipient_slot idx slot = search steady

  pub Steady-write_physical_block :
      (phys id : ℕ) (plaintext : List ℕ) → Steady (write_physical_block w phys id plaintext)
  unfolding write_physical_block
  Steady-write_physical_block phys id plaintext = search steady depth 20

  pub Steady-read_physical_block : (phys id : ℕ) → Steady (read_physical_block w phys id)
  unfolding read_physical_block
  Steady-read_physical_block phys id = search steady depth 20

  pub Steady-write_index_block :
      (phys id next : ℕ) (indices : List ℕ) → Steady (write_index_block w phys id next indices)
  unfolding write_index_block
  Steady-write_index_block phys id next indices = Steady-write_physical_block _ _ _

  pub Steady-read_index_block : (phys id : ℕ) → Steady (read_index_block w phys id)
  unfolding read_index_block
  Steady-read_index_block phys id = search (steady, Steady-read_physical_block)

  pub Steady-walk :
      (keep : ℕ → List ℕ → List ℕ) (fuel id next : ℕ) → Steady (walk w keep fuel id next)
  unfolding walk
  Steady-walk keep zero id next = search steady
  Steady-walk keep (suc fuel) id next = Steady-if _ (Steady-pure _) (
      Steady-bind (Steady-read_index_block next id)
        (λ (n, is). Steady-bind (Steady-walk keep fuel id n) (λ more. Steady-pure _)))

  pub Steady-collect_all_blocks : (entry : FileEntry) → Steady (collect_all_blocks w entry)
  unfolding collect_all_blocks
  Steady-collect_all_blocks entry = search (steady, Steady-walk) depth 20

  pub Steady-write_data :
      (id len i : ℕ) (bytes blocks : List ℕ) → Steady (write_data w id len i bytes blocks)
  unfolding write_data
  Steady-write_data id len i bytes [] = Steady-pure tt
  Steady-write_data id len i bytes (phys ∷ blocks) =
      Steady-then (Steady-write_physical_block phys id _)
        (Steady-write_data id len (i + 1) bytes blocks)

  pub Steady-write_index :
      (id per : ℕ) (indices blocks : List ℕ) → Steady (write_index w id per indices blocks)
  unfolding write_index
  Steady-write_index id per indices [] = Steady-pure tt
  Steady-write_index id per indices (phys ∷ blocks) =
      Steady-then (Steady-write_index_block phys id _ _)
        (Steady-write_index id per (drop per indices) blocks)

  pub Steady-store_new_content : (id : ℕ) (bytes : List ℕ) → Steady (store_new_content w id bytes)
  unfolding store_new_content
  Steady-store_new_content id bytes =
      search (steady, Steady-write_data, Steady-write_index, Steady-write_bitmap) depth 30

  pub Steady-find_slot : (test : FileEntry → Bool) (n idx : ℕ) → Steady (find_slot w test n idx)
  unfolding find_slot
  Steady-find_slot test zero idx = Steady-pure none
  Steady-find_slot test (suc n) idx =
      Steady-bind (Steady-read_slot idx)
        (λ e. Steady-if _ (Steady-pure _) (Steady-find_slot test n (idx + 1)))

  pub Steady-find_slot_by_name : (name : List ℕ) → Steady (find_slot_by_name w name)
  unfolding find_slot_by_name
  Steady-find_slot_by_name name = search (steady, Steady-find_slot)

  pub Steady-find_free_slot : Steady (find_free_slot w)
  unfolding find_free_slot
  Steady-find_free_slot = search (steady, Steady-find_slot)

  pub Steady-occupied_from : (n idx : ℕ) → Steady (occupied_from w n idx)
  unfolding occupied_from
  Steady-occupied_from zero idx = Steady-pure []
  Steady-occupied_from (suc n) idx =
      Steady-bind (Steady-read_slot idx)
        (λ e. Steady-bind (Steady-occupied_from n (idx + 1)) (λ more. Steady-pure _))

  pub Steady-all_occupied_entries : Steady (all_occupied_entries w)
  unfolding all_occupied_entries
  Steady-all_occupied_entries = search (steady, Steady-occupied_from)

  pub Counts-add_file : (name bytes : List ℕ) → Counts (add_file w name bytes)
  unfolding add_file
  Counts-add_file name bytes =
      search
        (
          counts, steady, Steady-require_admin, Steady-find_slot_by_name, Steady-find_free_slot,
          Steady-store_new_content, Steady-write_slot, Counts-append_signed_chain_record,
        )
        depth 40

  pub Counts-update_file : (name bytes : List ℕ) → Counts (update_file w name bytes)
  unfolding update_file
  Counts-update_file name bytes =
      search
        (
          counts, steady, Steady-require_admin, Steady-find_slot_by_name, Steady-collect_all_blocks,
          Steady-write_bitmap, Steady-store_new_content, Steady-write_slot,
          Counts-append_signed_chain_record,
        )
        depth 40

  pub Counts-delete_file : (name : List ℕ) → Counts (delete_file w name)
  unfolding delete_file
  Counts-delete_file name =
      search
        (
          counts, steady, Steady-require_admin, Steady-find_slot_by_name, Steady-collect_all_blocks,
          Steady-write_bitmap, Steady-write_slot, Counts-append_signed_chain_record,
        )
        depth 40
