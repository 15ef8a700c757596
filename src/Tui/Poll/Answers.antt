-- ===== src/Tui/Poll/Answers.antt =====
-- tui/widgets/network_tab.rs and tui/network_bridge.rs against net/sync.rs: the two ways to serve a peer.
use re_vault.Prelude.{
  ℕ, ◌≡◌, refl, sym, ap, ◌∙◌, true, false, List, Option, none, some, ascii, Bool-cases, inl, inr,
}
use re_vault.Error.{VaultError, not_authorized, Result, ok, err}
use re_vault.Crypto.{Primitives}
use re_vault.Identity.{PeerId}
use re_vault.Vault.State.{Platform, Vault, Range, done, ◌>>=◌, pure, export_full}
use re_vault.Vault.Peers.{RecipientInfo, list_recipients}
use re_vault.Net.Journal.{PatchJournal, ranges_since}
use re_vault.Net.Protocol.{chain_state, patch, full_sync, error, encode, decode, read_frame}
use re_vault.Net.Handshake.{SecureChannel, send, send_nonce, recv, received, recv_nonce}
use re_vault.Net.Sync.{
  Answer, is_granted, journalled, reply, written, finished, answer, read_request, serve_stream,
}
use re_vault.Tui.Bridge.{respond, delivered}
use re_vault.Tui.Poll.{granted, full_or_error, patch_or_full, response_to}

-- What was received is no part of what is sent next.
send-received :
    (c : Primitives) (a : SecureChannel) (r : Result (List ℕ × List ℕ)) (plaintext : List ℕ)
    → (send c (received c a r).1 plaintext).0 ≡ (send c a plaintext).0
unfolding send send_nonce received recv_nonce
send-received c a (err e) plaintext = refl
send-received c a (ok (x, y)) plaintext = refl

send-recv :
    (c : Primitives) (a : SecureChannel) (stream plaintext : List ℕ)
    → (send c (recv c a stream).1 plaintext).0 ≡ (send c a plaintext).0
unfolding recv
send-recv c a stream plaintext = send-received c a (read_frame stream) plaintext

-- An answer that was reached, taken apart.
done_inv : {a b : Answer} → done a ≡ done b → a ≡ b
done_inv e = cc

finished-delivered :
    (peer : PeerId) (r : Result (List ℕ)) → (finished peer r).0 ≡ (delivered peer r).0
finished-delivered peer (ok frame) = refl
finished-delivered peer (err e) = refl

module _ (w : Platform) (display : VaultError → List ℕ) (channel : SecureChannel) (peer : PeerId)
    (j : PatchJournal) where
  -- A granted peer's answer, by the journal's ranges or without.
  respond-reply :
      (o : Option (List Range)) (n : ℕ) (v : Vault) (frame : List ℕ) (r : Result PeerId)
      → ((reply o n >>= λ m. pure (finished peer (send w.crypto channel (encode m)).0)) v).0
        ≡ done (frame, r)
      → (respond w.crypto channel peer (some (patch_or_full w display n o v).0)).0 ≡ frame
  unfolding reply patch_or_full full_or_error export_full respond ◌>>=◌ pure
  respond-reply none n v frame r e =
      sym (finished-delivered peer (send w.crypto channel (encode (full_sync v.file))).0)
      ∙ ap (λ x. x.0) (done_inv e)
  respond-reply (some ranges) n v frame r e =
      sym (finished-delivered peer (send w.crypto channel (encode (patch n ranges))).0)
      ∙ ap (λ x. x.0) (done_inv e)

module _ (w : Platform) (channel : SecureChannel) (peer : PeerId) (j : PatchJournal)
    (stream : List ℕ) (infos : List RecipientInfo) (v : Vault)
    (listed : list_recipients w v ≡ (done infos, v)) where
  serve_stream-granted :
      (bytes rest last_hash : List ℕ) (n : ℕ)
      → is_granted peer infos ≡ true
      → (recv w.crypto channel stream).0 ≡ ok (bytes, rest)
      → decode bytes ≡ ok (chain_state n last_hash)
      → serve_stream w channel peer (some j) stream v
        ≡ (reply (ranges_since j n) n >>= λ m.
              pure (finished peer (send w.crypto (recv w.crypto channel stream).1 (encode m)).0))
            v
  unfolding serve_stream read_request answer journalled ◌>>=◌
  serve_stream-granted bytes rest last_hash n known opened decoded =
      rw (listed, known, opened, decoded) refl

  serve_stream-stranger :
      is_granted peer infos ≡ false
      → (serve_stream w channel peer (some j) stream v).0
        ≡ done (
          written
              (send w.crypto channel (encode (error (ascii "not granted access to this vault")))).0,
          err not_authorized,
        )
  unfolding serve_stream ◌>>=◌ pure
  serve_stream-stranger stranger = rw (listed, stranger) refl

-- A vault served from the terminal interface answers a peer as `serve_stream` does: where the recipients
-- can be listed and the peer sends a ChainState, the bridge writes to the stream, with the response of
-- the poll, the very bytes that `serve_stream` writes, to a peer that is granted and to one that is not.
pub respond-serve_stream :
    (w : Platform) (display : VaultError → List ℕ) (channel : SecureChannel) (peer : PeerId)
    (j : PatchJournal) (stream bytes rest last_hash frame : List ℕ) (n : ℕ)
    (infos : List RecipientInfo) (r : Result PeerId) (v : Vault)
    → list_recipients w v ≡ (done infos, v)
    → (recv w.crypto channel stream).0 ≡ ok (bytes, rest)
    → decode bytes ≡ ok (chain_state n last_hash)
    → (serve_stream w channel peer (some j) stream v).0 ≡ done (frame, r)
    → (respond w.crypto
        (recv w.crypto channel stream).1
        peer
        (some (response_to w display j (record { peer_id = peer; next_seq = n }) v).0)).0
      ≡ frame
unfolding response_to granted respond
respond-serve_stream w display channel peer j stream bytes rest last_hash frame n infos r v listed
      opened decoded served =
    elim (Bool-cases (is_granted peer infos)) [
      | inl known ↦
          rw (listed, known)
            (respond-reply w display (recv w.crypto channel stream).1 peer j (ranges_since j n) n v
              frame r
              (sym (
                  ap (λ x. x.0)
                    (serve_stream-granted w channel peer j stream infos v listed bytes rest
                      last_hash n known opened decoded))
                ∙ served))
      | inr stranger ↦
          rw (listed, stranger)
            (ap written (send-recv w.crypto channel stream _)
              ∙ ap (λ x. x.0)
                  (done_inv (
                    sym (serve_stream-stranger w channel peer j stream infos v listed stranger)
                    ∙ served)))
    ]
