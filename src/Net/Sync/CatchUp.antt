-- ===== src/Net/Sync/CatchUp.antt =====
-- net/sync.rs: `apply_incoming` on what `serve_stream` answers.
use re_vault.Prelude.{
  ℕ, ◌≡◌, refl, sym, ◌∙◌, if◌then◌else◌, List, ◌++◌, some, ascii, Bool-cases, inl, inr,
}
use re_vault.Error.{not_authorized, Result, ok, err}
use re_vault.Crypto.{Documented}
use re_vault.Identity.{PeerId}
use re_vault.Vault.State.{
  Platform, Vault, Range, Outcome, M, done, failed, loops, continue_with, ◌>>=◌, pure, lift, replay,
}
use re_vault.Vault.Peers.{RecipientInfo, list_recipients}
use re_vault.Vault.ChangeLog.Replica.{file-apply_remote_patch}
use re_vault.Net.Journal.{PatchJournal, ranges_since}
use re_vault.Net.Protocol.{chain_state, patch, error, encode, decode}
use re_vault.Net.Protocol.RoundTrip.{Fits, message-decode-encode}
use re_vault.Net.Handshake.{SecureChannel, send, recv}
use re_vault.Net.Handshake.Channel.{InStep, recv-send}
use re_vault.Net.Sync.{
  Answer, is_granted, journalled, reply, written, finished, answer, read_request, serve_stream,
  apply_message, apply_incoming,
}

-- An answer that ends well was sent whole.
pub sent-finished :
    (peer : PeerId) (r : Result (List ℕ)) {frame : List ℕ}
    → done (finished peer r) ≡ done (frame, ok peer)
    → r ≡ ok frame
sent-finished peer (ok f) e = cc
sent-finished peer (err x) e = cc

-- What is answered once the journal has given its ranges.
answer-patch :
    (w : Platform) (a : SecureChannel) (peer : PeerId) (j : PatchJournal) (p : ℕ)
    (ranges : List Range) (last_hash : List ℕ) (v : Vault)
    → ranges_since j p ≡ some ranges
    → (answer w a peer (some j) (ok (chain_state p last_hash)) v).0
      ≡ done (finished peer (send w.crypto a (encode (patch p ranges))).0)
unfolding answer journalled reply ◌>>=◌ pure
answer-patch w a peer j p ranges last_hash v found = rw (found) refl

module _ (w : Platform) (laws : Documented w.crypto) where
  -- The replica's file after a message that came over the channel whole.
  pub file-apply_incoming :
      (a b : SecureChannel) (seq : ℕ) (ranges : List Range) (frame later : List ℕ) (u : Vault)
      → InStep a b
      → Fits (patch seq ranges)
      → (send w.crypto a (encode (patch seq ranges))).0 ≡ ok frame
      → (apply_incoming w b (frame ++ later) u).1.file ≡ replay ranges u.file
  unfolding apply_incoming ◌>>=◌ lift apply_message
  file-apply_incoming a b seq ranges frame later u s fits e =
      rw
        (
          (recv-send w.crypto laws a b _ frame later s e).0,
          message-decode-encode (patch seq ranges) fits,
        )
        (file-apply_remote_patch w ranges u)

module _ (w : Platform) (a : SecureChannel) (peer : PeerId) (j : PatchJournal)
    (stream bytes rest last_hash frame : List ℕ) (n : ℕ) (ranges : List Range)
    (opened : (recv w.crypto a stream).0 ≡ ok (bytes, rest))
    (decoded : decode bytes ≡ ok (chain_state n last_hash))
    (found : ranges_since j n ≡ some ranges) where
  -- What `serve_stream` does with the recipients.
  abbrev admit : List RecipientInfo → M Answer
  admit infos =
      if is_granted peer infos
      then read_request w (recv w.crypto a stream).1 peer (some j) (recv w.crypto a stream).0
      else pure (
        written (send w.crypto a (encode (error (ascii "not granted access to this vault")))).0,
        err not_authorized,
      )

  sent-admit :
      (infos : List RecipientInfo) (v : Vault)
      → (admit infos v).0 ≡ done (frame, ok peer)
      → (send w.crypto (recv w.crypto a stream).1 (encode (patch n ranges))).0 ≡ ok frame
  unfolding pure read_request
  sent-admit infos v ended = elim (Bool-cases (is_granted peer infos)) [
    | inl known ↦ sent-finished peer _ (
        sym (answer-patch w (recv w.crypto a stream).1 peer j n ranges last_hash v found)
        ∙ rw (known, opened, decoded) at ended)
    | inr stranger ↦ cc (rw (stranger) at ended)
  ]

  sent-outcome :
      (o : Outcome (List RecipientInfo)) (v : Vault)
      → (continue_with admit o v).0 ≡ done (frame, ok peer)
      → (send w.crypto (recv w.crypto a stream).1 (encode (patch n ranges))).0 ≡ ok frame
  sent-outcome (done infos) v ended = sent-admit infos v ended
  sent-outcome (failed e) v ended = cc
  sent-outcome loops v ended = cc

  -- A connection that ended well, of a peer that sent a ChainState covered by the journal, was
  -- answered by the patch.
  pub serve_stream-patch :
      (v : Vault)
      → (serve_stream w a peer (some j) stream v).0 ≡ done (frame, ok peer)
      → (send w.crypto (recv w.crypto a stream).1 (encode (patch n ranges))).0 ≡ ok frame
  unfolding serve_stream ◌>>=◌
  serve_stream-patch v ended = sent-outcome (list_recipients w v).0 (list_recipients w v).1 ended
