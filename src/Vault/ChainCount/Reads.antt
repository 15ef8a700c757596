-- ===== src/Vault/ChainCount/Reads.antt =====
-- core/vault.rs: `list_files` and `list_recipients` change neither the log's account of the file nor
-- the chain's next number.
use re_vault.Prelude.{ℕ, zero, suc, ◌+◌, []}
use re_vault.Vault.State.{Platform}
use re_vault.Vault.Files.{list_files}
use re_vault.Vault.Peers.{list_recipients, recipients_from}
use re_vault.Vault.ChangeLog.Rules.{Logged, Logged-bind, Logged-pure, logged}
use re_vault.Vault.ChangeLog.Mutations.{Logged-all_occupied_entries, Logged-read_recipient_slot}
use re_vault.Vault.ChainCount.Rules.{Steady, Steady-bind, Steady-pure, steady}
use re_vault.Vault.ChainCount.Methods.{Steady-all_occupied_entries, Steady-read_recipient_slot}

module _ (w : Platform) where
  Logged-recipients_from : (n idx : ℕ) → Logged (recipients_from w n idx)
  unfolding recipients_from
  Logged-recipients_from zero idx = Logged-pure []
  Logged-recipients_from (suc n) idx =
      Logged-bind (Logged-read_recipient_slot w idx)
        (λ s. Logged-bind (Logged-recipients_from n (idx + 1)) (λ more. Logged-pure _))

  Steady-recipients_from : (n idx : ℕ) → Steady (recipients_from w n idx)
  unfolding recipients_from
  Steady-recipients_from zero idx = Steady-pure []
  Steady-recipients_from (suc n) idx =
      Steady-bind (Steady-read_recipient_slot w idx)
        (λ s. Steady-bind (Steady-recipients_from n (idx + 1)) (λ more. Steady-pure _))

  pub Logged-list_recipients : Logged (list_recipients w)
  unfolding list_recipients
  Logged-list_recipients = search (logged, Logged-recipients_from)

  pub Steady-list_recipients : Steady (list_recipients w)
  unfolding list_recipients
  Steady-list_recipients = search (steady, Steady-recipients_from)

  pub Logged-list_files : Logged (list_files w)
  unfolding list_files
  Logged-list_files = search (logged, Logged-all_occupied_entries)

  pub Steady-list_files : Steady (list_files w)
  unfolding list_files
  Steady-list_files = search (steady, Steady-all_occupied_entries)
