-- ===== src/Vault/Storage.antt =====
-- core/vault.rs: the header, the bitmap, and the slots of the file table, the keyring and the chain.
use re_vault.Prelude.{ℕ, ◌+◌, ◌%◌, ◌^◌, Bool, true, false, List, Option, none, some}
use re_vault.Error.{not_authorized}
use re_vault.Allocator.{as_bytes}
use re_vault.Format.Header
use re_vault.Format.Header.{Header}
use re_vault.Format.FileEntry
use re_vault.Format.FileEntry.{FileEntry}
use re_vault.Format.RecipientSlot
use re_vault.Format.RecipientSlot.{RecipientSlot}
use re_vault.Format.ChainRecord
use re_vault.Format.ChainRecord.{ChainRecord, ChainOp}
use re_vault.Vault.State.{
  Platform, Vault, M, ◌>>=◌, ◌>>◌, lift, or_raise, guard, gets, set_header, draw, offset_u64,
  read_at, write_at,
}

abbrev pub is_some : {A : Type 0} → Option A → Bool
is_some none = false
is_some (some a) = true

unfoldable pub is_admin : Vault → Bool
is_admin v = is_some v.admin_identity

unfoldable pub require_admin : M Unit
require_admin = do admin ← gets is_admin; guard admin not_authorized

unfoldable pub slot_offset : Header → ℕ → ℕ
slot_offset h idx = offset_u64 h.file_table_offset idx h.entry_size

unfoldable pub recipient_slot_offset : Header → ℕ → ℕ
recipient_slot_offset h idx = offset_u64 h.recipient_offset idx h.recipient_slot_size

-- The chain region is a ring of `max_chain_records` slots.
unfoldable pub chain_slot_offset : Header → ℕ → ℕ
chain_slot_offset h seq = offset_u64 h.chain_offset (seq % h.max_chain_records) h.chain_record_size

module _ (w : Platform) where
  unfoldable pub write_header : M Unit
  write_header = do h ← gets (λ v. v.header); write_at 0 (Header.encode w.crypto h)

  unfoldable pub write_bitmap : M Unit
  write_bitmap = do
    h ← gets (λ v. v.header)
    a ← gets (λ v. v.allocator)
    write_at h.bitmap_offset (as_bytes a)

  unfoldable pub read_slot : ℕ → M FileEntry
  read_slot idx = do
    h ← gets (λ v. v.header)
    buf ← read_at (slot_offset h idx) h.entry_size
    lift (FileEntry.decode w.crypto buf)

  unfoldable pub write_slot : ℕ → FileEntry → M Unit
  write_slot idx entry = do
    h ← gets (λ v. v.header)
    write_at (slot_offset h idx) (FileEntry.encode w.crypto entry)

  unfoldable pub read_recipient_slot : ℕ → M RecipientSlot
  read_recipient_slot idx = do
    h ← gets (λ v. v.header)
    buf ← read_at (recipient_slot_offset h idx) h.recipient_slot_size
    lift (RecipientSlot.decode w.crypto buf)

  unfoldable pub write_recipient_slot : ℕ → RecipientSlot → M Unit
  write_recipient_slot idx slot = do
    h ← gets (λ v. v.header)
    write_at (recipient_slot_offset h idx) (RecipientSlot.encode w.crypto slot)

  unfoldable pub read_chain_slot_at_seq : ℕ → M (Option ChainRecord)
  read_chain_slot_at_seq seq = do
    h ← gets (λ v. v.header)
    buf ← read_at (chain_slot_offset h seq) h.chain_record_size
    lift (ChainRecord.decode buf)

  unfoldable pub append_signed_chain_record : ChainOp → ℕ → List ℕ → M Unit
  append_signed_chain_record op target_id data_hash = do
    h ← gets (λ v. v.header)
    let seq = h.chain_next_seq
    identity ← gets (λ v. v.admin_identity)
    admin ← or_raise identity not_authorized
    timestamp ← draw w.now
    let rec =
        ChainRecord.new_signed w.crypto seq h.chain_last_hash op target_id data_hash timestamp
          admin.signing
    write_at (chain_slot_offset h seq) (ChainRecord.encode rec)
    set_header
        (λ g. record g { chain_next_seq = (seq + 1) % 2 ^ 64; chain_last_hash = rec.record_hash })
    write_header
