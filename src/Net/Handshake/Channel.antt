-- ===== src/Net/Handshake/Channel.antt =====
-- net/handshake.rs: the two ends of a channel, message by message.
use re_vault.Prelude.{
  ℕ, ◌+◌, ◌-◌, ◌*◌, ◌%◌, ◌^◌, ◌≤◌, ◌<◌, ◌≡◌, refl, sym, ap, ◌∙◌, Option, none, some, List, [], ◌++◌,
  take, replicate, take-append, from_le_bytes, to_le_bytes, length-to_le_bytes,
  from_le_bytes-to_le_bytes, arith,
}
use re_vault.Error.{VaultError, ok, ◌>>=◌}
use re_vault.Crypto.{Primitives, Documented}
use re_vault.Crypto.Keys.{or_else}
use re_vault.Net.Protocol.{write_frame, read_frame}
use re_vault.Net.Protocol.RoundTrip.{read-write_frame}
use re_vault.Net.Handshake.{
  SecureChannel, nonce_at, next_counter, send_nonce, recv_nonce, send, received, recv,
}

counter_of-nonce_at :
    (i p : ℕ) → i < 2 ^ 63 → p ≤ 1 → from_le_bytes (take 8 (nonce_at i p)) ≡ i * 2 + p
unfolding nonce_at
counter_of-nonce_at i p hi hp =
    let n = (i * 2 + p) % 2 ^ 64 in
    ap from_le_bytes
      (take-append (to_le_bytes 8 n) (replicate 4 0) 8 (sym (length-to_le_bytes 8 n)))
    ∙ from_le_bytes-to_le_bytes 8 n (omega arith)
    ∙ (let whole : n ≡ i * 2 + p = omega (arith, hi, hp) in whole)

-- Below 2^63 messages each way, two nonces are the same only for the same message of the same end.
pub nonce_at-injective :
    (i j p q : ℕ)
    → i < 2 ^ 63
    → j < 2 ^ 63
    → p ≤ 1
    → q ≤ 1
    → nonce_at i p ≡ nonce_at j q
    → (i ≡ j) × (p ≡ q)
nonce_at-injective i j p q hi hj hp hq e =
    let read : i * 2 + p ≡ j * 2 + q =
      sym (counter_of-nonce_at i p hi hp)
      ∙ ap (λ n. from_le_bytes (take 8 n)) e
      ∙ counter_of-nonce_at j q hj hq in
    (omega (arith, read, hp, hq), omega (arith, read, hp, hq))

send_inv :
    (o : Option (List ℕ)) (e : VaultError) {frame : List ℕ}
    → (or_else o e >>= λ ciphertext. write_frame ciphertext) ≡ ok frame
    → (ciphertext : List ℕ) × (o ≡ some ciphertext) × (write_frame ciphertext ≡ ok frame)
send_inv none e h = cc
send_inv (some ciphertext) e h = (ciphertext, refl, h)

-- The ends of one channel, `sender` to `receiver`, with no message on the way.
pub record InStep (sender receiver : SecureChannel) : Type 0 where
  pub key : receiver.key ≡ sender.key
  pub counter : receiver.recv_counter ≡ sender.send_counter
  pub parity : 1 - receiver.send_parity ≡ sender.send_parity

module _ (c : Primitives) (laws : Documented c) where
  recv_opened :
      (b : SecureChannel) (plaintext sealed stream later : List ℕ)
      → read_frame stream ≡ ok (sealed, later)
      → c.unseal b.key (nonce_at b.recv_counter (1 - b.send_parity)) [] sealed ≡ some plaintext
      → recv c b stream ≡ (ok (plaintext, later), (recv_nonce b).1)
  unfolding recv received recv_nonce
  recv_opened b plaintext sealed stream later framed opens =
      ap (received c b) framed ∙ rw (opens) refl

  -- What one end sends, the other receives, whatever is behind it in the stream, and the two ends are
  -- in step again.
  pub recv-send :
      (a b : SecureChannel) (plaintext frame later : List ℕ)
      → InStep a b
      → (send c a plaintext).0 ≡ ok frame
      → ((recv c b (frame ++ later)).0 ≡ ok (plaintext, later))
        × InStep (send c a plaintext).1 (recv c b (frame ++ later)).1
  unfolding send recv send_nonce recv_nonce
  recv-send a b plaintext frame later s e =
      let (sealed, made, framed) =
        send_inv (c.seal a.key (nonce_at a.send_counter a.send_parity) [] plaintext) _ e in
      let opens : c.unseal b.key (nonce_at b.recv_counter (1 - b.send_parity)) [] sealed
          ≡ some plaintext =
        rw (s.key, s.counter, s.parity) (laws.unseal_seal a.key _ [] plaintext sealed made) in
      rw
        (recv_opened b plaintext sealed (frame ++ later) later
          (read-write_frame sealed later frame framed) opens)
        (refl, record { key = s.key; counter = ap next_counter s.counter; parity = s.parity })
