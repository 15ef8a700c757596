-- ===== src/Vault/Peers.antt =====
-- core/vault.rs: the recipient keyring, `grant_access` and `revoke_access`.
use re_vault.Prelude.{
  ℕ, zero, suc, ◌+◌, Bool, true, false, not, ◌&&◌, List, [], ◌∷◌, ◌++◌, Option, none, some, take,
  if◌then◌else◌, bytes_eq, from_le_bytes, ascii,
}
use re_vault.Error.{already_granted, recipient_table_full, access_not_granted}
use re_vault.Crypto.{Primitives}
use re_vault.Crypto.Keys.{wrap_dek_for_recipient, derive, encrypt_random_nonce, nonce_len, key_len}
use re_vault.Identity.{PeerId}
use re_vault.Format.FileEntry.{FileEntry}
use re_vault.Format.RecipientSlot.{RecipientSlot, is_occupied, recipient_flag_occupied, vacant}
use re_vault.Format.ChainRecord.{access_granted, key_rotated}
use re_vault.Vault.State.{
  Platform, M, ◌>>=◌, ◌>>◌, pure, or_raise, guard, lift, gets, set_key, set_header, draw, for_each,
}
use re_vault.Vault.Storage.{
  require_admin, read_recipient_slot, write_recipient_slot, write_header,
  append_signed_chain_record,
}
use re_vault.Vault.Blocks.{read_physical_block, write_physical_block, collect_all_blocks}
use re_vault.Vault.Files.{all_occupied_entries}

pub record RecipientInfo : Type 0 where
  pub peer_id : PeerId
  pub granted_at : ℕ

abbrev pub peer_of : RecipientSlot → RecipientInfo
peer_of s = record {
  peer_id = record { signing_public = s.signing_pubkey; encryption_public = s.encryption_pubkey };
  granted_at = s.granted_at;
}

abbrev pub is_vacant : Option (ℕ × RecipientSlot) → Bool
is_vacant none = true
is_vacant (some found) = false

-- `b"revault-admin-dek-v2"`
abbrev pub admin_key_slot_aad : List ℕ
admin_key_slot_aad = ascii "revault-admin-dek-v2"

-- A block's index, its file and its plaintext.
pub record Opened : Type 0 where
  pub phys : ℕ
  pub file_id : ℕ
  pub plaintext : List ℕ

unfoldable pub peer_target_id : Primitives → List ℕ → ℕ
peer_target_id c signing_pubkey = from_le_bytes (take 16 (c.sha256 signing_pubkey))

module _ (w : Platform) where
  -- The first slot that passes the test, over `rounds` slots from `idx` on.
  unfoldable pub find_recipient : (RecipientSlot → Bool) → ℕ → ℕ → M (Option (ℕ × RecipientSlot))
  find_recipient test zero idx = pure none
  find_recipient test (suc rounds) idx = do
    slot ← read_recipient_slot w idx
    if test slot then pure (some (idx, slot)) else find_recipient test rounds (idx + 1)

  unfoldable pub find_recipient_slot_by_signing_key : List ℕ → M (Option (ℕ × RecipientSlot))
  find_recipient_slot_by_signing_key signing_pubkey = do
    h ← gets (λ v. v.header)
    find_recipient (λ s. is_occupied s && bytes_eq s.signing_pubkey signing_pubkey) h.max_recipients
        0

  unfoldable pub find_free_recipient_slot : M (Option (ℕ × RecipientSlot))
  find_free_recipient_slot = do
    h ← gets (λ v. v.header)
    find_recipient (λ s. not (is_occupied s)) h.max_recipients 0

  unfoldable pub recipients_from : ℕ → ℕ → M (List RecipientInfo)
  recipients_from zero idx = pure []
  recipients_from (suc rounds) idx = do
    slot ← read_recipient_slot w idx
    more ← recipients_from rounds (idx + 1)
    pure (if is_occupied slot then peer_of slot ∷ more else more)

  unfoldable pub list_recipients : M (List RecipientInfo)
  list_recipients = do h ← gets (λ v. v.header); recipients_from h.max_recipients 0

  -- A fresh ephemeral secret, then a fresh nonce.
  unfoldable pub wrap_key_for : List ℕ → List ℕ → M (List ℕ)
  wrap_key_for encryption_pubkey dek = do
    ephemeral ← draw (λ i. w.random i 32)
    nonce ← draw (λ i. w.random i nonce_len)
    lift (wrap_dek_for_recipient w.crypto ephemeral nonce encryption_pubkey dek)

  unfoldable pub grant_access : PeerId → M Unit
  grant_access peer = do
    require_admin
    existing ← find_recipient_slot_by_signing_key peer.signing_public
    guard (is_vacant existing) already_granted
    free_slot ← find_free_recipient_slot
    (idx, old) ← or_raise free_slot recipient_table_full
    key ← gets (λ v. v.key)
    wrapped ← wrap_key_for peer.encryption_public key
    granted_at ← draw w.now
    write_recipient_slot w idx (record {
      signing_pubkey = peer.signing_public;
      encryption_pubkey = peer.encryption_public;
      wrapped_dek = wrapped;
      granted_at = granted_at;
      flags = recipient_flag_occupied;
    })
    append_signed_chain_record w access_granted (peer_target_id w.crypto peer.signing_public)
        (w.crypto.sha256 (peer.signing_public ++ peer.encryption_public))

  -- Step 1: every block in use, opened under the current key.
  unfoldable pub open_blocks : ℕ → List ℕ → M (List Opened)
  open_blocks file_id [] = pure []
  open_blocks file_id (phys ∷ blocks) = do
    plaintext ← read_physical_block w phys file_id
    more ← open_blocks file_id blocks
    pure (record { phys = phys; file_id = file_id; plaintext = plaintext } ∷ more)

  unfoldable pub open_entries : List (ℕ × FileEntry) → M (List Opened)
  open_entries [] = pure []
  open_entries ((idx, entry) ∷ entries) = do
    blocks ← collect_all_blocks w entry
    opened ← open_blocks entry.id blocks
    more ← open_entries entries
    pure (opened ++ more)

  -- Step 4: the new key wrapped for each recipient that is left, over `rounds` slots from `idx` on.
  unfoldable pub rewrap_from : List ℕ → ℕ → ℕ → M Unit
  rewrap_from dek zero idx = pure tt
  rewrap_from dek (suc rounds) idx = do
    slot ← read_recipient_slot w idx
    (if is_occupied slot
        then (do
          wrapped ← wrap_key_for slot.encryption_pubkey dek
          write_recipient_slot w idx (record slot { wrapped_dek = wrapped }))
        else pure tt)
    rewrap_from dek rounds (idx + 1)

  unfoldable pub revoke_access : List ℕ → List ℕ → M Unit
  revoke_access peer_signing_pubkey password = do
    require_admin
    found ← find_recipient_slot_by_signing_key peer_signing_pubkey
    (slot_idx, old) ← or_raise found access_not_granted
    entries ← all_occupied_entries w
    opened ← open_entries entries
    new_dek ← draw (λ i. w.random i key_len)
    set_key new_dek
    for_each opened (λ b. write_physical_block w b.phys b.file_id b.plaintext)
    write_recipient_slot w slot_idx vacant
    before ← gets (λ v. v.header)
    rewrap_from new_dek before.max_recipients 0
    kek ← lift (
        derive w.crypto password before.salt (record {
          m_cost_kib = before.argon2_m_cost_kib;
          t_cost = before.argon2_t_cost;
          p_cost = before.argon2_p_cost;
        }))
    nonce ← draw (λ i. w.random i nonce_len)
    admin_key_slot ← lift (encrypt_random_nonce w.crypto kek nonce new_dek admin_key_slot_aad)
    set_header (λ h. record h { admin_key_slot = admin_key_slot })
    write_header w
    append_signed_chain_record w key_rotated (peer_target_id w.crypto peer_signing_pubkey)
        (w.crypto.sha256 peer_signing_pubkey)
