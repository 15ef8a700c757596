-- ===== src/Net/Handshake/Agreement.antt =====
-- net/handshake.rs: `initiator` against `responder`.
use re_vault.Prelude.{
  ℕ, ◌≡◌, refl, sym, ap, true, false, List, ◌++◌, length, length-append, take-append, drop-append,
  arith, ◌==◌,
}
use re_vault.Error.{access_not_granted, ok, err}
use re_vault.Crypto.{Primitives, Documented}
use re_vault.Identity.{PeerId, Identity, peer_id, sign, peer_eq, peer_to_bytes}
use re_vault.Identity.Laws.{peer_from_bytes-peer_to_bytes, peer_eq_iff}
use re_vault.Format.ChainRecord.{verify_with}
use re_vault.Net.Handshake.{
  Hello, SecureChannel, encode_hello, decode_hello, build_hello, verify_hello, derive_session_key,
  fresh_channel, hello_bytes, initiator, responder,
}

decode_hello-encode_hello :
    (h : Hello)
    → length h.peer.signing_public ≡ 32
    → length h.peer.encryption_public ≡ 32
    → length h.ephemeral_pub ≡ 32
    → length h.signature ≡ 64
    → decode_hello (encode_hello h) ≡ ok h
unfolding decode_hello encode_hello
decode_hello-encode_hello h hs he hp hg =
    let front : length (peer_to_bytes h.peer) ≡ 64 =
      unfold peer_to_bytes in
      omega (arith, length-append h.peer.signing_public h.peer.encryption_public, hs, he) in
    let rest = h.ephemeral_pub ++ h.signature in
    let whole : (length (peer_to_bytes h.peer ++ rest) == 160) ≡ true = ground (
      arith,
      length-append (peer_to_bytes h.peer) rest,
      length-append h.ephemeral_pub h.signature,
      front,
      hp,
      hg,
    ) in
    rw
      (
        whole,
        take-append (peer_to_bytes h.peer) rest 64 (sym front),
        drop-append (peer_to_bytes h.peer) rest 64 (sym front),
        peer_from_bytes-peer_to_bytes h.peer hs he,
        take-append h.ephemeral_pub h.signature 32 (sym hp),
        drop-append h.ephemeral_pub h.signature 32 (sym hp),
      )
      refl

module _ (c : Primitives) (laws : Documented c) where
  hello_opened :
      (local : Identity) (ephemeral : List ℕ)
      → decode_hello (hello_bytes c local ephemeral)
          ≡ ok (build_hello c local (c.x_public ephemeral))
        × verify_hello c (build_hello c local (c.x_public ephemeral)) ≡ ok tt
  unfolding hello_bytes build_hello peer_id sign verify_hello verify_with
  hello_opened local ephemeral = (
    decode_hello-encode_hello _ (laws.ed_public_len _) (laws.x_public_len _) (laws.x_public_len _)
        (laws.signature_len _ _),
    rw (
      laws.signed_verifies local.signing (c.x_public ephemeral),
      verify_hello,
      build_hello,
      peer_id,
      sign,
      verify_with,
    ),
  )

  -- Two honest sides, the initiator expecting the responder, both complete the handshake. Each
  -- learns the other's identity, both have the same key and the parities are 0 and 1.
  pub initiator-responder :
      (alice bob : Identity) (ea eb : List ℕ)
      → (a : SecureChannel) × (b : SecureChannel) × (initiator c ea
            (peer_id c bob)
            (hello_bytes c bob eb)
          ≡ ok (a, peer_id c bob))
        × (responder c eb (hello_bytes c alice ea) ≡ ok (b, peer_id c alice))
        × (a.key ≡ b.key)
        × (a.send_parity ≡ 0)
        × (b.send_parity ≡ 1)
  unfolding initiator responder build_hello fresh_channel
  initiator-responder alice bob ea eb = (
    fresh_channel c ea (c.x_public eb) 0,
    fresh_channel c eb (c.x_public ea) 1,
    rw
        (
          (hello_opened bob eb).0,
          (hello_opened bob eb).1,
          (peer_eq_iff (peer_id c bob) (peer_id c bob)).1 refl,
        )
        refl,
    rw ((hello_opened alice ea).0, (hello_opened alice ea).1) refl,
    ap (derive_session_key c) (laws.shared ea eb),
    refl,
    refl,
  )

  -- An honest responder whose identity is not the expected one is refused.
  pub initiator-refuses :
      (expected : PeerId) (bob : Identity) (ea eb : List ℕ)
      → peer_eq (peer_id c bob) expected ≡ false
      → initiator c ea expected (hello_bytes c bob eb) ≡ err access_not_granted
  unfolding initiator build_hello
  initiator-refuses expected bob ea eb other =
      rw ((hello_opened bob eb).0, (hello_opened bob eb).1, other) refl
