-- ===== src/Net/Sync/Join.antt =====
-- net/sync.rs: a peer that joins, and the admin that serves it.
use re_vault.Prelude.{ℕ, ◌≡◌, refl, sym, ◌∙◌, List, ◌++◌, arith, Option, none, some, replicate}
use re_vault.Error.{Result, ok, err}
use re_vault.Crypto.{Primitives, Documented}
use re_vault.Identity.{PeerId, Identity}
use re_vault.Vault.State.{Platform, Vault, done, ◌>>=◌, pure, export_full}
use re_vault.Vault.Lifecycle.{open_as_recipient}
use re_vault.Net.Journal.{PatchJournal, ranges_since}
use re_vault.Net.Protocol.{chain_state, full_sync, encode, read_frame}
use re_vault.Net.Protocol.RoundTrip.{Fits, message-decode-encode}
use re_vault.Net.Handshake.{SecureChannel, send, send_nonce, recv, received, recv_nonce}
use re_vault.Net.Handshake.Channel.{InStep, recv-send}
use re_vault.Net.Sync.CatchUp.{sent-finished}
use re_vault.Net.Sync.{
  journalled, reply, finished, answer, read_request, request_join, joined, read_answer,
  await_answer, join,
}

-- No journal has anything for a peer at 0.
journalled-zero : (journal : Option PatchJournal) → journalled journal 0 ≡ none
unfolding journalled ranges_since
journalled-zero none = refl
journalled-zero (some j) = refl

-- The other direction of a channel is not touched by a message.
InStep-send :
    (c : Primitives) (b a : SecureChannel) (plaintext : List ℕ)
    → InStep b a
    → InStep b (send c a plaintext).1
unfolding send send_nonce
InStep-send c b a plaintext s = record { key = s.key; counter = s.counter; parity = s.parity }

InStep-received :
    (c : Primitives) (b a : SecureChannel) (r : Result (List ℕ × List ℕ))
    → InStep b a
    → InStep (received c b r).1 a
unfolding received recv_nonce
InStep-received c b a (err e) s = s
InStep-received c b a (ok (x, y)) s = record { key = s.key; counter = s.counter; parity = s.parity }

InStep-recv :
    (c : Primitives) (b a : SecureChannel) (stream : List ℕ)
    → InStep b a
    → InStep (recv c b stream).1 a
unfolding recv
InStep-recv c b a stream s = InStep-received c b a (read_frame stream) s

module _ (w : Platform) (laws : Documented w.crypto) where
  -- What the admin answers to a request that came whole.
  answer-join :
      (a b : SecureChannel) (peer : PeerId) (journal : Option PatchJournal) (request later : List ℕ)
      (v : Vault)
      → InStep a b
      → (request_join w a).0 ≡ ok request
      → (read_request w
          (recv w.crypto b (request ++ later)).1
          peer
          journal
          (recv w.crypto b (request ++ later)).0
          v).0
        ≡ done (
            finished peer
              (send w.crypto (recv w.crypto b (request ++ later)).1 (encode (full_sync v.file))).0)
  unfolding request_join read_request answer reply ◌>>=◌ pure export_full
  answer-join a b peer journal request later v there asked =
      rw
        (
          (recv-send w.crypto laws a b _ request later there asked).0,
          message-decode-encode (chain_state 0 (replicate 32 0)) (omega arith, refl),
          journalled-zero journal,
        )
        refl

  InStep-request_join : (x y : SecureChannel) → InStep y x → InStep y (request_join w x).1
  unfolding request_join
  InStep-request_join x y s = InStep-send w.crypto y x _ s

  -- A granted peer that joins: where its request and the admin's whole file go through the channel,
  -- the file it writes is the admin's file, byte for byte, and its replica is what `open_as_recipient`
  -- makes of that file, whatever the admin's journal holds.
  pub join-read_request :
      (a b : SecureChannel) (local : Identity) (peer : PeerId) (journal : Option PatchJournal)
      (drawn : ℕ) (request later frame rest : List ℕ) (v : Vault)
      → InStep a b
      → InStep b a
      → Fits (full_sync v.file)
      → (request_join w a).0 ≡ ok request
      → (read_request w
          (recv w.crypto b (request ++ later)).1
          peer
          journal
          (recv w.crypto b (request ++ later)).0
          v).0
        ≡ done (frame, ok peer)
      → join w a local drawn (frame ++ rest) ≡ (some v.file, open_as_recipient w v.file local drawn)
  unfolding join await_answer read_answer joined
  join-read_request a b local peer journal drawn request later frame rest v there back fits asked
        sent =
      let back_after : InStep (recv w.crypto b (request ++ later)).1 (request_join w a).1 =
        InStep-recv w.crypto b (request_join w a).1 _ (InStep-request_join a b back) in
      rw
        (
          asked,
          (recv-send w.crypto laws (recv w.crypto b (request ++ later)).1 (request_join w a).1 _
              frame rest back_after
              (sent-finished peer _
                (sym (answer-join a b peer journal request later v there asked) ∙ sent))).0,
          message-decode-encode (full_sync v.file) fits,
        )
        refl
