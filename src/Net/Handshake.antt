-- ===== src/Net/Handshake.antt =====
-- net/handshake.rs: the mutually authenticated key exchange, and the encrypted channel over it. The
-- ephemeral secrets are arguments. Counters are `u64`, which wrap as in a release build.
pub mod Agreement
pub mod Channel
use re_vault.Prelude.{
  ℕ, ◌+◌, ◌-◌, ◌*◌, ◌%◌, ◌^◌, List, [], ◌∷◌, ◌++◌, length, take, drop, replicate, ◌==◌,
  if◌then◌else◌, to_le_bytes, ascii,
}
use re_vault.Error.{
  crypto_failure, access_not_granted, corrupt_container, Result, ok, err, ◌>>=◌, ◌>>◌, ensure,
}
use re_vault.Crypto.{Primitives}
use re_vault.Crypto.Keys.{or_else}
use re_vault.Identity.{PeerId, Identity, peer_id, peer_eq, sign, peer_to_bytes, peer_from_bytes}
use re_vault.Format.ChainRecord.{verify_with}
use re_vault.Net.Protocol.{write_frame, read_frame}

abbrev pub hello_len : ℕ
hello_len = 160

pub record Hello : Type 0 where
  pub peer : PeerId
  pub ephemeral_pub : List ℕ
  pub signature : List ℕ

pub record SecureChannel : Type 0 where
  pub key : List ℕ
  pub send_counter : ℕ
  pub recv_counter : ℕ
  pub send_parity : ℕ

unfoldable pub encode_hello : Hello → List ℕ
encode_hello h = peer_to_bytes h.peer ++ (h.ephemeral_pub ++ h.signature)

unfoldable pub decode_hello : List ℕ → Result Hello
decode_hello buf =
    if length buf == hello_len
    then (do
      peer ← peer_from_bytes (take 64 buf)
      ok (record {
        peer = peer;
        ephemeral_pub = take 32 (drop 64 buf);
        signature = drop 32 (drop 64 buf);
      }))
    else err (corrupt_container "malformed handshake hello")

-- `n.to_le_bytes()` in the first 8 of 12 bytes, at `counter * 2 + parity`
unfoldable pub nonce_at : ℕ → ℕ → List ℕ
nonce_at counter parity = to_le_bytes 8 ((counter * 2 + parity) % 2 ^ 64) ++ replicate 4 0

abbrev pub next_counter : ℕ → ℕ
next_counter n = (n + 1) % 2 ^ 64

unfoldable pub send_nonce : SecureChannel → List ℕ × SecureChannel
send_nonce s =
    (nonce_at s.send_counter s.send_parity, record s { send_counter = next_counter s.send_counter })

unfoldable pub recv_nonce : SecureChannel → List ℕ × SecureChannel
recv_nonce s = (
  nonce_at s.recv_counter (1 - s.send_parity),
  record s { recv_counter = next_counter s.recv_counter },
)

module _ (c : Primitives) where
  unfoldable pub build_hello : Identity → List ℕ → Hello
  build_hello local ephemeral_pub = record {
    peer = peer_id c local;
    ephemeral_pub = ephemeral_pub;
    signature = sign c local ephemeral_pub;
  }

  unfoldable pub verify_hello : Hello → Result (Unit {0})
  verify_hello h = verify_with c h.peer.signing_public h.ephemeral_pub h.signature

  unfoldable pub derive_session_key : List ℕ → List ℕ
  derive_session_key shared_secret = c.sha256 (shared_secret ++ ascii "revault-session-v1")

  unfoldable pub fresh_channel : List ℕ → List ℕ → ℕ → SecureChannel
  fresh_channel ephemeral their_pub parity = record {
    key = derive_session_key (c.diffie_hellman ephemeral their_pub);
    send_counter = 0;
    recv_counter = 0;
    send_parity = parity;
  }

  -- The hello that either side writes.
  unfoldable pub hello_bytes : Identity → List ℕ → List ℕ
  hello_bytes local ephemeral = encode_hello (build_hello local (c.x_public ephemeral))

  -- The initiator, from the responder's hello on.
  unfoldable pub initiator : List ℕ → PeerId → List ℕ → Result (SecureChannel × PeerId)
  initiator ephemeral expected_peer their_bytes = do
    their_hello ← decode_hello their_bytes
    verify_hello their_hello
    ensure (peer_eq their_hello.peer expected_peer) access_not_granted
    ok (fresh_channel ephemeral their_hello.ephemeral_pub 0, their_hello.peer)

  -- The responder, on the initiator's hello.
  unfoldable pub responder : List ℕ → List ℕ → Result (SecureChannel × PeerId)
  responder ephemeral their_bytes = do
    their_hello ← decode_hello their_bytes
    verify_hello their_hello
    ok (fresh_channel ephemeral their_hello.ephemeral_pub 1, their_hello.peer)

  -- What is written to the stream, and the channel after the call.
  unfoldable pub send : SecureChannel → List ℕ → Result (List ℕ) × SecureChannel
  send s plaintext =
      let (nonce, after) = send_nonce s in
      (
        (do
          ciphertext ← or_else (c.seal s.key nonce [] plaintext) crypto_failure
          write_frame ciphertext),
        after,
      )

  -- What is made of the frame read, with the channel after the call.
  unfoldable pub received :
      SecureChannel → Result (List ℕ × List ℕ) → Result (List ℕ × List ℕ) × SecureChannel
  received s (err e) = (err e, s)
  received s (ok (ciphertext, rest)) = (
    (do
      plaintext ← or_else (c.unseal s.key (recv_nonce s).0 [] ciphertext) crypto_failure
      ok (plaintext, rest)),
    (recv_nonce s).1,
  )

  -- The plaintext with the stream after it, and the channel after the call.
  unfoldable pub recv : SecureChannel → List ℕ → Result (List ℕ × List ℕ) × SecureChannel
  recv s stream = received s (read_frame stream)
