-- ===== src/Tui/Bridge.antt =====
-- tui/network_bridge.rs: what passes between the network thread and the main thread, and what the
-- network thread does with one connection. The two channels are the lists of what is still to be
-- received from them.
use re_vault.Prelude.{ℕ, List, [], Option, none, some, ascii}
use re_vault.Error.{VaultError, Result, ok, err}
use re_vault.Identity.{PeerId}
use re_vault.Crypto.{Primitives}
use re_vault.Net.Journal.{PatchJournal}
use re_vault.Net.Protocol.{SyncMessage, chain_state, error, encode, decode}
use re_vault.Net.Handshake.{SecureChannel, send, recv}
use re_vault.Net.Sync.{written}

-- The sender `respond_to` is left out: what is sent to it is a result of the poll.
pub record SyncRequest : Type 0 where
  pub peer_id : PeerId
  pub next_seq : ℕ

pub data SyncResponse : Type 0 where
  not_granted : SyncResponse
  message : SyncMessage → SyncResponse

-- The failures of a connection; the source keeps their text.
pub data Failure : Type 0 where
  vault_error : VaultError → Failure
  no_chain_state not_listening request_dropped accept_error : Failure
  no_access : PeerId → Failure

pub data BridgeEvent : Type 0 where
  synced : PeerId → BridgeEvent
  failed : Failure → BridgeEvent

pub record NetworkBridge : Type 0 where
  pub requests : List SyncRequest
  pub events : List BridgeEvent

-- network_tab.rs: `NetworkSession`
pub record NetworkSession : Type 0 where
  pub bridge : NetworkBridge
  pub journal : PatchJournal

-- The request that a connection makes of the main thread, from the end of the handshake on.
pub data Request : Type 0 where
  asks : SyncRequest → Request
  gives_up : Failure → Request

unfoldable pub request_of : PeerId → Result SyncMessage → Request
request_of peer (err e) = gives_up (vault_error e)
request_of peer (ok (chain_state next_seq last_hash)) =
    asks (record { peer_id = peer; next_seq = next_seq })
request_of peer (ok other) = gives_up no_chain_state

-- A response sent, or not.
abbrev pub delivered : PeerId → Result (List ℕ) → List ℕ × BridgeEvent
delivered peer (ok frame) = (frame, synced peer)
delivered peer (err e) = ([], failed (vault_error e))

module _ (c : Primitives) where
  unfoldable pub read_state : PeerId → Result (List ℕ × List ℕ) → Request
  read_state peer (err e) = gives_up (vault_error e)
  read_state peer (ok (bytes, rest)) = request_of peer (decode bytes)

  -- `handle_connection` up to the request, with the channel as `recv` leaves it.
  unfoldable pub receive_request : SecureChannel → PeerId → List ℕ → Request × SecureChannel
  receive_request channel peer stream =
      (read_state peer (recv c channel stream).0, (recv c channel stream).1)

  -- `handle_connection` from the response on, `none` where the sender was dropped: what is written to
  -- the stream, and the event that `start` reports.
  unfoldable pub respond : SecureChannel → PeerId → Option SyncResponse → List ℕ × BridgeEvent
  respond channel peer none = ([], failed request_dropped)
  respond channel peer (some not_granted) = (
    written (send c channel (encode (error (ascii "not granted access to this vault")))).0,
    failed (no_access peer),
  )
  respond channel peer (some (message m)) = delivered peer (send c channel (encode m)).0
