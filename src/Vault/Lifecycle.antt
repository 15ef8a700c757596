-- ===== src/Vault/Lifecycle.antt =====
-- core/vault.rs: creating and opening a vault, and its summary.
-- A vault is opened from its file's bytes; `drawn` counts the platform's values used before.
use re_vault.Prelude.{
  ℕ, zero, suc, ◌+◌, ◌-◌, ◌*◌, ◌/◌, Bool, not, ◌&&◌, List, [], ◌++◌, Option, none, some, length,
  replicate, leb, ◌==◌, if◌then◌else◌, bytes_eq, to_le_bytes, min, max,
}
use re_vault.Error.{
  io, already_exists, field_too_long, capacity_too_small, corrupt_container, access_not_granted,
  Result, ok, err, ◌>>=◌, ◌>>◌, ensure,
}
use re_vault.Crypto.Keys.{
  derive, default_params, encrypt_random_nonce, decrypt_random_nonce, unwrap_dek_for_recipient,
  salt_len, key_len, nonce_len,
}
use re_vault.Identity.{Identity, PeerId, peer_id}
use re_vault.Allocator.{bitmap_len_bytes, new, from_bytes, as_bytes, occupied_count}
use re_vault.Format.Header
use re_vault.Format.Header.{
  Header, header_size, format_version, default_block_size, max_name_len, max_desc_len,
  admin_key_slot_len, max_recipients_count, total_container_size,
}
use re_vault.Format.FileEntry
use re_vault.Format.RecipientSlot
use re_vault.Format.RecipientSlot.{RecipientSlot, wrapped_dek_len}
use re_vault.Format.ChainRecord
use re_vault.Format.ChainRecord.{vault_created}
use re_vault.Vault.State.{Platform, Vault, offset_u64, overwrite, slice}
use re_vault.Vault.Peers.{admin_key_slot_aad}

pub record VaultSummary : Type 0 where
  pub name : List ℕ
  pub description : List ℕ
  pub capacity_bytes : ℕ
  pub created_at : ℕ

unfoldable pub summary_of : Header → VaultSummary
summary_of h = record {
  name = h.name;
  description = h.description;
  capacity_bytes = h.capacity_bytes;
  created_at = h.created_at;
}

unfoldable pub used_bytes : Vault → ℕ
used_bytes v = occupied_count v.allocator * v.header.block_size

unfoldable pub chain_state : Vault → ℕ × List ℕ
chain_state v = (v.header.chain_next_seq, v.header.chain_last_hash)

-- `.clamp(lo, hi)`
abbrev pub clamp : ℕ → ℕ → ℕ → ℕ
clamp lo hi x = max lo (min x hi)

unfoldable pub max_files_for : ℕ → ℕ
max_files_for capacity = clamp 4 4096 (capacity / 16384)

unfoldable pub max_chain_records_for : ℕ → ℕ
max_chain_records_for max_files = clamp 8 16384 (max_files * 4)

-- What `create` is asked for.
pub record Request : Type 0 where
  pub name : List ℕ
  pub description : List ℕ
  pub capacity_bytes : ℕ

-- The sizes and offsets that `create` computes, with what it drew and derived.
unfoldable pub layout : Request → List ℕ → List ℕ → PeerId → ℕ → List ℕ → Header
layout r salt admin_key_slot admin created_at genesis_hash =
    let block_count = r.capacity_bytes / default_block_size in
    let max_files = max_files_for r.capacity_bytes in
    let max_chain_records = max_chain_records_for max_files in
    let bitmap_len = bitmap_len_bytes block_count in
    let file_table_len = max_files * FileEntry.entry_size in
    let recipient_len = max_recipients_count * RecipientSlot.recipient_slot_size in
    let chain_len = max_chain_records * ChainRecord.chain_record_size in
    let file_table_offset = header_size + bitmap_len in
    let recipient_offset = file_table_offset + file_table_len in
    let chain_offset = recipient_offset + recipient_len in
    record {
      version = format_version;
      flags = 0;
      block_size = default_block_size;
      block_count = block_count;
      capacity_bytes = r.capacity_bytes;
      name = r.name;
      description = r.description;
      created_at = created_at;
      salt = salt;
      argon2_m_cost_kib = default_params.m_cost_kib;
      argon2_t_cost = default_params.t_cost;
      argon2_p_cost = default_params.p_cost;
      admin_key_slot = admin_key_slot;
      admin_signing_pubkey = admin.signing_public;
      admin_encryption_pubkey = admin.encryption_public;
      bitmap_offset = header_size;
      bitmap_len = bitmap_len;
      file_table_offset = file_table_offset;
      file_table_len = file_table_len;
      max_files = max_files;
      entry_size = FileEntry.entry_size;
      recipient_offset = recipient_offset;
      recipient_len = recipient_len;
      max_recipients = max_recipients_count;
      recipient_slot_size = RecipientSlot.recipient_slot_size;
      chain_offset = chain_offset;
      chain_len = chain_len;
      max_chain_records = max_chain_records;
      chain_record_size = ChainRecord.chain_record_size;
      chain_next_seq = 1;
      chain_last_hash = genesis_hash;
      data_offset = chain_offset + chain_len;
    }

-- `for _ in 0..n { file.write_all(bytes) }`
unfoldable pub repeat_bytes : ℕ → List ℕ → List ℕ
repeat_bytes zero bytes = []
repeat_bytes (suc n) bytes = bytes ++ repeat_bytes n bytes

module _ (w : Platform) where
  -- The file that `create` leaves: `set_len`, then the regions in order from the start.
  unfoldable pub fresh_file : Header → List ℕ → List ℕ
  fresh_file h genesis = overwrite (replicate (total_container_size h) 0) 0 (
      Header.encode w.crypto h
      ++ (as_bytes (new h.block_count)
          ++ (repeat_bytes h.max_files (FileEntry.empty_slot w.crypto)
              ++ (repeat_bytes h.max_recipients (RecipientSlot.empty_slot w.crypto)
                  ++ (genesis
                      ++ repeat_bytes (h.max_chain_records - 1)
                          (replicate ChainRecord.chain_record_size 0))))))

  -- `path_taken` says whether `create_new` finds a file at the path.
  unfoldable pub create : Bool → Request → List ℕ → Identity → ℕ → Result Vault
  create path_taken r password admin drawn = do
    ensure (leb (length r.name) max_name_len) field_too_long
    ensure (leb (length r.description) max_desc_len) field_too_long
    ensure (not (r.capacity_bytes / default_block_size == 0)) capacity_too_small
    let salt = w.random drawn salt_len
    kek ← derive w.crypto password salt default_params
    let dek = w.random (drawn + 1) key_len
    admin_key_slot ←
        encrypt_random_nonce w.crypto kek (w.random (drawn + 2) nonce_len) dek admin_key_slot_aad
    ensure (leb (length admin_key_slot) admin_key_slot_len)
        (corrupt_container "admin key slot unexpectedly large")
    let admin_peer_id = peer_id w.crypto admin
    let created_at = w.now (drawn + 3)
    let genesis_data_hash = w.crypto.sha256 (
        r.name
        ++ (r.description ++ (to_le_bytes 8 r.capacity_bytes ++ admin_peer_id.signing_public)))
    let genesis =
        ChainRecord.new_signed w.crypto 0 (replicate 32 0) vault_created 0 genesis_data_hash
          created_at admin.signing
    let h = layout r salt admin_key_slot admin_peer_id created_at genesis.record_hash
    ensure (not path_taken) (io already_exists)
    ok (record {
      file = fresh_file h (ChainRecord.encode genesis);
      header = h;
      allocator = new h.block_count;
      key = dek;
      admin_identity = some admin;
      change_log = [];
      drawn = drawn + 4;
    })

  unfoldable pub read_header : List ℕ → Result Header
  read_header file = do buf ← slice file 0 header_size; Header.decode w.crypto buf

  unfoldable pub peek_summary : List ℕ → Result VaultSummary
  peek_summary file = do h ← read_header file; ok (summary_of h)

  -- The vault over `file`, with its bitmap read back.
  unfoldable pub opened : List ℕ → Header → List ℕ → Option Identity → ℕ → Result Vault
  opened file h key admin drawn = do
    bitmap ← slice file h.bitmap_offset h.bitmap_len
    ok (record {
      file = file;
      header = h;
      allocator = from_bytes bitmap h.block_count;
      key = key;
      admin_identity = admin;
      change_log = [];
      drawn = drawn;
    })

  -- Named `open` in the source.
  unfoldable pub open_vault : List ℕ → List ℕ → Identity → ℕ → Result Vault
  open_vault file password local drawn = do
    h ← read_header file
    kek ← derive w.crypto password h.salt (record {
      m_cost_kib = h.argon2_m_cost_kib;
      t_cost = h.argon2_t_cost;
      p_cost = h.argon2_p_cost;
    })
    dek ← decrypt_random_nonce w.crypto kek h.admin_key_slot admin_key_slot_aad
    ensure (length dek == 32) (corrupt_container "unwrapped admin DEK has the wrong length")
    let admin =
        if bytes_eq (peer_id w.crypto local).signing_public h.admin_signing_pubkey
        then some local
        else none
    opened file h dek admin drawn

  -- The slot of the identity, over `rounds` slots from `idx` on.
  unfoldable pub recipient_in : List ℕ → Header → List ℕ → ℕ → ℕ → Result RecipientSlot
  recipient_in file h encryption_public zero idx = err access_not_granted
  recipient_in file h encryption_public (suc rounds) idx = do
    buf ← slice file (offset_u64 h.recipient_offset idx h.recipient_slot_size) h.recipient_slot_size
    slot ← RecipientSlot.decode w.crypto buf
    if RecipientSlot.is_occupied slot && bytes_eq slot.encryption_pubkey encryption_public
        then ok slot
        else recipient_in file h encryption_public rounds (idx + 1)

  unfoldable pub open_as_recipient : List ℕ → Identity → ℕ → Result Vault
  open_as_recipient file local drawn = do
    h ← read_header file
    slot ← recipient_in file h (peer_id w.crypto local).encryption_public h.max_recipients 0
    ensure (length slot.wrapped_dek == wrapped_dek_len)
        (corrupt_container "recipient wrapped DEK has the wrong length")
    dek ← unwrap_dek_for_recipient w.crypto local.encryption slot.wrapped_dek
    opened file h dek none drawn
