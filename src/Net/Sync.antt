-- ===== src/Net/Sync.antt =====
-- net/sync.rs: what the admin answers to a peer, and what a peer does with a message. The handshake is
-- over, and a stream is the bytes still to come; what is written to the stream is a result.
pub mod CatchUp
pub mod Join
pub mod Reads
use re_vault.Prelude.{
  ℕ, Bool, false, ◌||◌, List, [], ◌∷◌, ◌++◌, Option, none, some, if◌then◌else◌, ascii, replicate,
}
use re_vault.Error.{corrupt_container, not_authorized, remote, Result, ok, err}
use re_vault.Identity.{PeerId, Identity, peer_eq}
use re_vault.Vault.Lifecycle.{open_as_recipient}
use re_vault.Vault.State.{Platform, Vault, M, ◌>>=◌, pure, raise, lift, export_full, Range}
use re_vault.Vault.Peers.{RecipientInfo, list_recipients}
use re_vault.Vault.Verify.{apply_remote_patch}
use re_vault.Net.Journal.{PatchJournal, ranges_since}
use re_vault.Net.Protocol.{
  SyncMessage, chain_state, patch, full_sync, up_to_date, error, encode, decode,
}
use re_vault.Net.Handshake.{SecureChannel, send, recv}

-- What was written to the stream, and how the call ended.
abbrev pub Answer : Type 0
Answer = List ℕ × Result PeerId

-- `.any(|r| r.peer_id == their_peer_id)`
unfoldable pub is_granted : PeerId → List RecipientInfo → Bool
is_granted peer [] = false
is_granted peer (r ∷ rs) = peer_eq r.peer_id peer || is_granted peer rs

-- `journal.and_then(|j| j.ranges_since(next_seq))`
unfoldable pub journalled : Option PatchJournal → ℕ → Option (List Range)
journalled none next_seq = none
journalled (some j) next_seq = ranges_since j next_seq

unfoldable pub reply : Option (List Range) → ℕ → M SyncMessage
reply none next_seq = do bytes ← export_full; pure (full_sync bytes)
reply (some ranges) next_seq = pure (patch next_seq ranges)

-- `let _ = channel.send(…)`: an error of the send is dropped, with nothing written.
abbrev pub written : Result (List ℕ) → List ℕ
written (ok frame) = frame
written (err e) = []

-- `channel.send(…).await?; Ok(their_peer_id)`
abbrev pub finished : PeerId → Result (List ℕ) → Answer
finished peer (ok frame) = (frame, ok peer)
finished peer (err e) = ([], err e)

module _ (w : Platform) where
  -- The answer to the peer's first message.
  unfoldable pub answer :
      SecureChannel → PeerId → Option PatchJournal → Result SyncMessage → M Answer
  answer channel peer journal (err e) = pure ([], err e)
  answer channel peer journal (ok (chain_state next_seq last_hash)) = do
    message ← reply (journalled journal next_seq) next_seq
    pure (finished peer (send w.crypto channel (encode message)).0)
  answer channel peer journal (ok other) = pure (
    written (send w.crypto channel (encode (error (ascii "expected a ChainState message")))).0,
    err (corrupt_container "peer did not send ChainState first"),
  )

  unfoldable pub read_request :
      SecureChannel → PeerId → Option PatchJournal → Result (List ℕ × List ℕ) → M Answer
  read_request channel peer journal (err e) = pure ([], err e)
  read_request channel peer journal (ok (bytes, rest)) = answer channel peer journal (decode bytes)

  -- From the end of `SecureChannel::responder` on.
  unfoldable pub serve_stream : SecureChannel → PeerId → Option PatchJournal → List ℕ → M Answer
  serve_stream channel peer journal stream = do
    infos ← list_recipients w
    if is_granted peer infos
        then read_request (recv w.crypto channel stream).1 peer journal
            (recv w.crypto channel stream).0
        else pure (
          written
              (send w.crypto channel (encode (error (ascii "not granted access to this vault")))).0,
          err not_authorized,
        )

  unfoldable pub apply_message : SyncMessage → M Unit
  apply_message (patch seq ranges) = apply_remote_patch w ranges
  apply_message up_to_date = pure tt
  apply_message (error message) = raise (remote message)
  apply_message other = raise (corrupt_container "unexpected message while applying incoming sync")

  unfoldable pub apply_incoming : SecureChannel → List ℕ → M Unit
  apply_incoming channel stream = do
    (bytes, rest) ← lift (recv w.crypto channel stream).0
    message ← lift (decode bytes)
    apply_message message

  -- What `join` makes of the answer: the file that it writes, if any, and the replica.
  unfoldable pub joined : Identity → ℕ → Result SyncMessage → Option (List ℕ) × Result Vault
  joined local drawn (err e) = (none, err e)
  joined local drawn (ok (full_sync bytes)) = (some bytes, open_as_recipient w bytes local drawn)
  joined local drawn (ok (error message)) = (none, err (remote message))
  joined local drawn (ok other) =
      (none, err (corrupt_container "unexpected response while joining"))

  unfoldable pub read_answer :
      Identity → ℕ → Result (List ℕ × List ℕ) → Option (List ℕ) × Result Vault
  read_answer local drawn (err e) = (none, err e)
  read_answer local drawn (ok (bytes, rest)) = joined local drawn (decode bytes)

  -- `join`'s first message
  unfoldable pub request_join : SecureChannel → Result (List ℕ) × SecureChannel
  request_join channel = send w.crypto channel (encode (chain_state 0 (replicate 32 0)))

  -- Once the request is sent, or not.
  unfoldable pub await_answer :
      SecureChannel → Identity → ℕ → List ℕ → Result (List ℕ) → Option (List ℕ) × Result Vault
  await_answer channel local drawn stream (err e) = (none, err e)
  await_answer channel local drawn stream (ok frame) =
      read_answer local drawn (recv w.crypto channel stream).0

  -- `join` from the end of `SecureChannel::initiator` on, over what the admin sends. The path can be
  -- written.
  unfoldable pub join : SecureChannel → Identity → ℕ → List ℕ → Option (List ℕ) × Result Vault
  join channel local drawn stream =
      await_answer (request_join channel).1 local drawn stream (request_join channel).0

  -- `push_patch`: what is written to the stream.
  unfoldable pub push_patch : SecureChannel → ℕ → List Range → Result (List ℕ) × SecureChannel
  push_patch channel seq ranges = send w.crypto channel (encode (patch seq ranges))
