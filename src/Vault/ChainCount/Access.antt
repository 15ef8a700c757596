-- ===== src/Vault/ChainCount/Access.antt =====
-- core/vault.rs: `grant_access` and `revoke_access` against the chain's next number.
use re_vault.Prelude.{ℕ, ◌+◌, zero, suc, Bool, List, [], ◌∷◌, none}
use re_vault.Identity.{PeerId}
use re_vault.Format.FileEntry.{FileEntry}
use re_vault.Format.RecipientSlot.{RecipientSlot}
use re_vault.Vault.State.{Platform}
use re_vault.Vault.Peers.{
  find_recipient, find_recipient_slot_by_signing_key, find_free_recipient_slot, wrap_key_for,
  grant_access, open_blocks, open_entries, rewrap_from, revoke_access,
}
use re_vault.Vault.ChainCount.Rules.{
  Steady, Counts, counts, Steady-set_header, Steady-pure, Steady-bind, Steady-then, Steady-for_each,
  Steady-if, steady,
}
use re_vault.Vault.ChainCount.Methods.{
  Steady-require_admin, Steady-write_header, Counts-append_signed_chain_record,
  Steady-read_recipient_slot, Steady-write_recipient_slot, Steady-write_physical_block,
  Steady-read_physical_block, Steady-collect_all_blocks, Steady-all_occupied_entries,
}

module _ (w : Platform) where
  Steady-find_recipient :
      (test : RecipientSlot → Bool) (n idx : ℕ) → Steady (find_recipient w test n idx)
  unfolding find_recipient
  Steady-find_recipient test zero idx = Steady-pure none
  Steady-find_recipient test (suc n) idx =
      Steady-bind ((Steady-read_recipient_slot w) idx)
        (λ s. Steady-if _ (Steady-pure _) (Steady-find_recipient test n (idx + 1)))

  Steady-find_recipient_slot_by_signing_key :
      (key : List ℕ) → Steady (find_recipient_slot_by_signing_key w key)
  unfolding find_recipient_slot_by_signing_key
  Steady-find_recipient_slot_by_signing_key key = search (steady, Steady-find_recipient)

  Steady-find_free_recipient_slot : Steady (find_free_recipient_slot w)
  unfolding find_free_recipient_slot
  Steady-find_free_recipient_slot = search (steady, Steady-find_recipient)

  Steady-wrap_key_for : (key dek : List ℕ) → Steady (wrap_key_for w key dek)
  unfolding wrap_key_for
  Steady-wrap_key_for key dek = search steady

  pub Counts-grant_access : (peer : PeerId) → Counts (grant_access w peer)
  unfolding grant_access
  Counts-grant_access peer =
      search
        (
          counts, steady, Steady-require_admin, Steady-find_recipient_slot_by_signing_key,
          Steady-find_free_recipient_slot, Steady-wrap_key_for, Steady-write_recipient_slot,
          Counts-append_signed_chain_record,
        )
        depth 40

  Steady-open_blocks : (id : ℕ) (blocks : List ℕ) → Steady (open_blocks w id blocks)
  unfolding open_blocks
  Steady-open_blocks id [] = Steady-pure []
  Steady-open_blocks id (phys ∷ blocks) =
      Steady-bind ((Steady-read_physical_block w) phys id)
        (λ p. Steady-bind (Steady-open_blocks id blocks) (λ more. Steady-pure _))

  Steady-open_entries : (entries : List (ℕ × FileEntry)) → Steady (open_entries w entries)
  unfolding open_entries
  Steady-open_entries [] = Steady-pure []
  Steady-open_entries ((idx, entry) ∷ entries) =
      Steady-bind ((Steady-collect_all_blocks w) entry) (λ blocks.
        Steady-bind (Steady-open_blocks entry.id blocks)
          (λ opened. Steady-bind (Steady-open_entries entries) (λ more. Steady-pure _)))

  Steady-rewrap_from : (dek : List ℕ) (n idx : ℕ) → Steady (rewrap_from w dek n idx)
  unfolding rewrap_from
  Steady-rewrap_from dek zero idx = Steady-pure tt
  Steady-rewrap_from dek (suc n) idx = Steady-bind ((Steady-read_recipient_slot w) idx) (λ s.
      Steady-then
        (Steady-if _
          (Steady-bind (Steady-wrap_key_for s.encryption_pubkey dek)
            (λ wrapped. (Steady-write_recipient_slot w) idx _))
          (Steady-pure tt))
        (Steady-rewrap_from dek n (idx + 1)))

  pub Counts-revoke_access : (key password : List ℕ) → Counts (revoke_access w key password)
  unfolding revoke_access
  Counts-revoke_access key password =
      search
        (
          counts, steady, Steady-for_each, Steady-set_header, Steady-require_admin,
          Steady-find_recipient_slot_by_signing_key, Steady-all_occupied_entries,
          Steady-open_entries, Steady-write_physical_block, Steady-write_recipient_slot,
          Steady-rewrap_from, Steady-write_header, Counts-append_signed_chain_record,
        )
        depth 60
