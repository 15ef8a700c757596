-- ===== src/Tui/Poll.antt =====
-- tui/widgets/network_tab.rs: what the Network tab does with an unlocked vault, and the answers to the
-- peers' requests at each tick.
pub mod Answers
use re_vault.Prelude.{ℕ, Bool, false, List, [], ◌∷◌, Option, none, some, if◌then◌else◌}
use re_vault.Error.{VaultError, Result, ok, err}
use re_vault.Identity.{PeerId}
use re_vault.Text.{Text, trim, utf8}
use re_vault.Vault.State.{Platform, Vault, Range, Outcome, done, failed, loops, M, export_full}
use re_vault.Vault.Peers.{RecipientInfo, list_recipients, grant_access, revoke_access}
use re_vault.Net.Journal.{PatchJournal, new, ranges_since}
use re_vault.Net.Protocol.{patch, full_sync, error}
use re_vault.Net.Sync.{is_granted}
use re_vault.Net.Invite.{Addresses, InviteCode, decode}
use re_vault.Tui.Bridge.{
  NetworkSession, SyncRequest, SyncResponse, not_granted, message, BridgeEvent, synced,
  failed as event_failed,
}
use re_vault.Tui.Unlocked.{UnlockedState, Message, synced as synced_message, sync_failed}
use re_vault.Tui.Unlocked.Submit.{refresh_recipients}

-- What the tab shows; the source keeps the text.
pub data TabError : Type 0 where
  vault_error : VaultError → TabError
  no_address replica_exists bad_port : TabError
  io_error : TabError

-- How a submission ends; `hangs` is no value of the code: the call did not return.
pub data Submitted : Type 0 where
  accepted : Submitted
  refused : TabError → Submitted
  hangs : Submitted

-- `state.message` after the events that are waiting, the last one on top.
unfoldable pub drain : List BridgeEvent → Option Message → Option Message
drain [] shown = shown
drain (synced peer ∷ es) shown = drain es (some (synced_message peer))
drain (event_failed e ∷ es) shown = drain es (some (sync_failed e))

-- `.map(|rs| rs.into_iter().any(|r| r.peer_id == peer_id)).unwrap_or(false)`. `list_recipients` counts
-- slots, and never loops.
unfoldable pub granted : PeerId → Outcome (List RecipientInfo) → Bool
granted peer (done infos) = is_granted peer infos
granted peer (failed e) = false
granted peer loops = false

module _ (w : Platform) (display : VaultError → List ℕ) where
  -- `display` is `to_string` of an error. `export_full` never loops.
  unfoldable pub full_or_error : Outcome (List ℕ) → SyncResponse
  full_or_error (done bytes) = message (full_sync bytes)
  full_or_error (failed e) = message (error (display e))
  full_or_error loops = not_granted

  unfoldable pub patch_or_full : ℕ → Option (List Range) → Vault → SyncResponse × Vault
  patch_or_full next_seq (some ranges) v = (message (patch next_seq ranges), v)
  patch_or_full next_seq none v = (full_or_error (export_full v).0, (export_full v).1)

  -- The response to one request.
  unfoldable pub response_to : PatchJournal → SyncRequest → Vault → SyncResponse × Vault
  response_to journal request v =
      if granted request.peer_id (list_recipients w v).0
      then patch_or_full request.next_seq (ranges_since journal request.next_seq)
          (list_recipients w v).1
      else (not_granted, (list_recipients w v).1)

  -- Every event, then one request: what is sent to its `respond_to`, and the state.
  unfoldable pub poll_requests :
      NetworkSession → List SyncRequest → UnlockedState → Option SyncResponse × UnlockedState
  poll_requests net [] s = (
    none,
    record s { network = some (record net { bridge = record { requests = []; events = [] } }) },
  )
  poll_requests net (request ∷ more) s =
      let (response, v) = response_to net.journal request s.vault in
      (
        some response,
        record s {
          vault = v;
          network = some (record net { bridge = record { requests = more; events = [] } });
        },
      )

  unfoldable pub poll_session :
      Option NetworkSession → UnlockedState → Option SyncResponse × UnlockedState
  poll_session none s = (none, s)
  poll_session (some net) s =
      poll_requests net net.bridge.requests
        (record s { message = drain net.bridge.events s.message })

  unfoldable pub poll_network : UnlockedState → Option SyncResponse × UnlockedState
  poll_network s = poll_session s.network s

module _ (w : Platform) where
  -- The end of `submit_grant` and `submit_revoke`.
  unfoldable pub settle : Outcome (Unit {0}) → UnlockedState → Submitted × UnlockedState
  settle (done _) s = (accepted, refresh_recipients w s)
  settle (failed e) s = (refused (vault_error e), s)
  settle loops s = (hangs, s)

  unfoldable pub submit : M Unit → UnlockedState → Submitted × UnlockedState
  submit m s = settle (m s.vault).0 (record s { vault = (m s.vault).1 })

  unfoldable pub grant_invited :
      {A : Addresses} → Result (InviteCode A) → UnlockedState → Submitted × UnlockedState
  grant_invited (err e) s = (refused (vault_error e), s)
  grant_invited (ok invite) s = submit (grant_access w invite.peer_id) s

  unfoldable pub submit_grant : Addresses → Text → UnlockedState → Submitted × UnlockedState
  submit_grant A input s = grant_invited (decode A (trim input)) s

  unfoldable pub submit_revoke : PeerId → Text → UnlockedState → Submitted × UnlockedState
  submit_revoke target password s = submit (revoke_access w target.signing_public (utf8 password)) s

-- `listens` says whether the listener could be bound on the port.
unfoldable pub start_serving : (ℕ → Bool) → ℕ → UnlockedState → Submitted × UnlockedState
start_serving listens port s =
    if listens port
    then (
      accepted,
      record s {
        network =
            some (record { bridge = record { requests = []; events = [] }; journal = new 64 });
      },
    )
    else (refused io_error, s)

unfoldable pub stop_serving : UnlockedState → UnlockedState
stop_serving s = record s { network = none }
