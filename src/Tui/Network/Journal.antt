-- ===== src/Tui/Network/Journal.antt =====
-- tui/widgets/network_tab.rs: what granting and revoking leave of the journal of a vault being served.
use re_vault.Prelude.{ℕ, ◌+◌, ◌%◌, ◌^◌, ◌<◌, ◌≡◌, refl, ◌∙◌, List, [], some, length}
use re_vault.Error.{Result, ok, err}
use re_vault.Identity.{PeerId}
use re_vault.Text.{Text, trim, utf8}
use re_vault.Vault.State.{Platform, Outcome, done, failed, loops, M}
use re_vault.Vault.Peers.{RecipientInfo, list_recipients}
use re_vault.Vault.ChainCount.Rules.{seq_of, Counts, counted}
use re_vault.Vault.ChainCount.Access.{Counts-grant_access, Counts-revoke_access}
use re_vault.Vault.ChainCount.Reads.{Steady-list_recipients}
use re_vault.Net.Journal.{ranges_since}
use re_vault.Net.Journal.Live.{InUse, ranges_since-now}
use re_vault.Net.Invite.{Addresses, InviteCode, decode}
use re_vault.Tui.Bridge.{NetworkSession}
use re_vault.Tui.Unlocked.{UnlockedState}
use re_vault.Tui.Unlocked.Submit.{with_recipients, refresh_recipients}
use re_vault.Tui.Poll.{
  Submitted, accepted, refused, hangs, settle, submit, grant_invited, submit_grant, submit_revoke,
}

-- The chain's next number after a submission.
abbrev pub moved_on : Submitted → ℕ → ℕ
moved_on accepted n = (n + 1) % 2 ^ 64
moved_on (refused e) n = n
moved_on hangs n = n

-- The serving session is the same, and the chain has moved as the submission went.
abbrev pub Unrecorded : UnlockedState → Submitted × UnlockedState → Type 0
Unrecorded s r = (r.1.network ≡ s.network) × (seq_of r.1.vault ≡ moved_on r.0 (seq_of s.vault))

module _ (w : Platform) where
  kept-with_recipients :
      (o : Outcome (List RecipientInfo)) (s : UnlockedState)
      → ((with_recipients o s).network ≡ s.network)
        × (seq_of (with_recipients o s).vault ≡ seq_of s.vault)
  kept-with_recipients (done rs) s = (refl, refl)
  kept-with_recipients (failed e) s = (refl, refl)
  kept-with_recipients loops s = (refl, refl)

  Unrecorded-settle :
      (o : Outcome Unit) (s t : UnlockedState)
      → t.network ≡ s.network
      → seq_of t.vault ≡ counted o (seq_of s.vault)
      → Unrecorded s (settle w o t)
  unfolding settle refresh_recipients
  Unrecorded-settle (done _) s t same moved =
      let kept =
        kept-with_recipients (list_recipients w t.vault).0
          (record t { vault = (list_recipients w t.vault).1 }) in
      (kept.0 ∙ same, kept.1 ∙ (Steady-list_recipients w).seq t.vault ∙ moved)
  Unrecorded-settle (failed e) s t same moved = (same, moved)
  Unrecorded-settle loops s t same moved = (same, moved)

  Unrecorded-submit : (m : M Unit) (s : UnlockedState) → Counts m → Unrecorded s (submit w m s)
  unfolding submit
  Unrecorded-submit m s c =
      Unrecorded-settle (m s.vault).0 s (record s { vault = (m s.vault).1 }) refl (c.seq s.vault)

  Unrecorded-grant_invited :
      {A : Addresses} (r : Result (InviteCode A)) (s : UnlockedState)
      → Unrecorded s (grant_invited w r s)
  unfolding grant_invited
  Unrecorded-grant_invited (err e) s = (refl, refl)
  Unrecorded-grant_invited (ok invite) s =
      Unrecorded-submit _ s (Counts-grant_access w invite.peer_id)

  -- While a vault with a patch in its journal is served, neither granting nor revoking records
  -- anything: the serving session stays as it was although an accepted submission moves the chain on
  -- by one, and to a peer at the number from before, that same journal goes on giving an empty patch.
  pub ranges_since-submit :
      (A : Addresses) (input password : Text) (target : PeerId) (s : UnlockedState)
      (net : NetworkSession)
      → s.network ≡ some net
      → InUse s.vault net.journal
      → 0 < length net.journal.entries
      → 0 < seq_of s.vault
      → Unrecorded s (submit_grant w A input s)
        × Unrecorded s (submit_revoke w target password s)
        × (ranges_since net.journal (seq_of s.vault) ≡ some [])
  unfolding submit_grant submit_revoke
  ranges_since-submit A input password target s net serving in_use held begun = (
    Unrecorded-grant_invited (decode A (trim input)) s,
    Unrecorded-submit _ s (Counts-revoke_access w target.signing_public (utf8 password)),
    ranges_since-now s.vault net.journal in_use held begun,
  )
