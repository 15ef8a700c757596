-- ===== src/Vault/ChangeLog/Access.antt =====
-- core/vault.rs: `grant_access` and `revoke_access` against the change log.
use re_vault.Prelude.{ℕ, ◌+◌, zero, suc, Bool, List, [], ◌∷◌, none}
use re_vault.Identity.{PeerId}
use re_vault.Format.FileEntry.{FileEntry}
use re_vault.Format.RecipientSlot.{RecipientSlot}
use re_vault.Vault.State.{Platform}
use re_vault.Vault.Peers.{
  find_recipient, find_recipient_slot_by_signing_key, find_free_recipient_slot, wrap_key_for,
  grant_access, open_blocks, open_entries, rewrap_from, revoke_access,
}
use re_vault.Vault.ChangeLog.Rules.{
  Logged, Logged-pure, Logged-bind, Logged-then, Logged-for_each, Logged-if, logged,
}
use re_vault.Vault.ChangeLog.Mutations.{
  Logged-require_admin, Logged-write_header, Logged-append_signed_chain_record,
  Logged-read_recipient_slot, Logged-write_recipient_slot, Logged-write_physical_block,
  Logged-read_physical_block, Logged-collect_all_blocks, Logged-all_occupied_entries,
}

module _ (w : Platform) where
  Logged-find_recipient :
      (test : RecipientSlot → Bool) (n idx : ℕ) → Logged (find_recipient w test n idx)
  unfolding find_recipient
  Logged-find_recipient test zero idx = Logged-pure none
  Logged-find_recipient test (suc n) idx =
      Logged-bind ((Logged-read_recipient_slot w) idx)
        (λ s. Logged-if _ (Logged-pure _) (Logged-find_recipient test n (idx + 1)))

  Logged-find_recipient_slot_by_signing_key :
      (key : List ℕ) → Logged (find_recipient_slot_by_signing_key w key)
  unfolding find_recipient_slot_by_signing_key
  Logged-find_recipient_slot_by_signing_key key = search (logged, Logged-find_recipient)

  Logged-find_free_recipient_slot : Logged (find_free_recipient_slot w)
  unfolding find_free_recipient_slot
  Logged-find_free_recipient_slot = search (logged, Logged-find_recipient)

  Logged-wrap_key_for : (key dek : List ℕ) → Logged (wrap_key_for w key dek)
  unfolding wrap_key_for
  Logged-wrap_key_for key dek = search logged

  pub Logged-grant_access : (peer : PeerId) → Logged (grant_access w peer)
  unfolding grant_access
  Logged-grant_access peer =
      search
        (
          logged, Logged-require_admin, Logged-find_recipient_slot_by_signing_key,
          Logged-find_free_recipient_slot, Logged-wrap_key_for, Logged-write_recipient_slot,
          Logged-append_signed_chain_record,
        )
        depth 40

  Logged-open_blocks : (id : ℕ) (blocks : List ℕ) → Logged (open_blocks w id blocks)
  unfolding open_blocks
  Logged-open_blocks id [] = Logged-pure []
  Logged-open_blocks id (phys ∷ blocks) =
      Logged-bind ((Logged-read_physical_block w) phys id)
        (λ p. Logged-bind (Logged-open_blocks id blocks) (λ more. Logged-pure _))

  Logged-open_entries : (entries : List (ℕ × FileEntry)) → Logged (open_entries w entries)
  unfolding open_entries
  Logged-open_entries [] = Logged-pure []
  Logged-open_entries ((idx, entry) ∷ entries) =
      Logged-bind ((Logged-collect_all_blocks w) entry) (λ blocks.
        Logged-bind (Logged-open_blocks entry.id blocks)
          (λ opened. Logged-bind (Logged-open_entries entries) (λ more. Logged-pure _)))

  Logged-rewrap_from : (dek : List ℕ) (n idx : ℕ) → Logged (rewrap_from w dek n idx)
  unfolding rewrap_from
  Logged-rewrap_from dek zero idx = Logged-pure tt
  Logged-rewrap_from dek (suc n) idx = Logged-bind ((Logged-read_recipient_slot w) idx) (λ s.
      Logged-then
        (Logged-if _
          (Logged-bind (Logged-wrap_key_for s.encryption_pubkey dek)
            (λ wrapped. (Logged-write_recipient_slot w) idx _))
          (Logged-pure tt))
        (Logged-rewrap_from dek n (idx + 1)))

  pub Logged-revoke_access : (key password : List ℕ) → Logged (revoke_access w key password)
  unfolding revoke_access
  Logged-revoke_access key password =
      search
        (
          logged, Logged-for_each, Logged-require_admin, Logged-find_recipient_slot_by_signing_key,
          Logged-all_occupied_entries, Logged-open_entries, Logged-write_physical_block,
          Logged-write_recipient_slot, Logged-rewrap_from, Logged-write_header,
          Logged-append_signed_chain_record,
        )
        depth 60
