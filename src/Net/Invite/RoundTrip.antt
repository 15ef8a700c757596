-- ===== src/Net/Invite/RoundTrip.antt =====
-- net/invite.rs: an invite code read back from its text.
use re_vault.Prelude.{
  ℕ, ◌+◌, ◌*◌, ◌/◌, ◌%◌, ◌<◌, ◌≡◌, refl, ap, true, List, [], ◌∷◌, ◌++◌, Option, none, some, length,
  leb, ◌==◌, All, IsByte, length-append, ◌≤◌, All-append, take-append, drop-append, arith,
}
use re_vault.Error.{ok}
use re_vault.Identity.{PeerId, peer_to_bytes, hex_char}
use re_vault.Identity.Laws.{peer_from_bytes-peer_to_bytes}
use re_vault.Text.{IsGraphic, trim-graphic, utf8-graphic}
use re_vault.Net.Invite.{
  Addresses, Printable, InviteCode, hex_encode, hex_digit, hex_pairs, hex_decode, address_bytes,
  encode, decode, decode_address,
}

hex_digit-hex_char : (d : ℕ) → d < 16 → hex_digit (hex_char d) ≡ ok d
unfolding hex_digit hex_char
hex_digit-hex_char d h = ground (arith, h)

hex_char-IsGraphic : (d : ℕ) → d < 16 → IsGraphic (hex_char d)
unfolding hex_char
hex_char-IsGraphic d h = ground (arith, h)

hex_encode-IsGraphic : (bs : List ℕ) → All IsByte bs → All IsGraphic (hex_encode bs)
unfolding hex_encode
hex_encode-IsGraphic [] a = tt
hex_encode-IsGraphic (b ∷ bs) (h, a) = (
  hex_char-IsGraphic (b / 16) (omega (arith, h)),
  (hex_char-IsGraphic (b % 16) (omega arith), hex_encode-IsGraphic bs a),
)

hex_pairs-hex_encode : (bs : List ℕ) → All IsByte bs → hex_pairs (hex_encode bs) ≡ ok bs
unfolding hex_encode hex_pairs
hex_pairs-hex_encode [] a = refl
hex_pairs-hex_encode (b ∷ bs) (h, a) =
    let whole : (b / 16) * 16 + b % 16 ≡ b = omega arith in
    rw
      (
        hex_digit-hex_char (b / 16) (omega (arith, h)),
        hex_digit-hex_char (b % 16) (omega arith),
        hex_pairs-hex_encode bs a,
      )
      (ap (λ x. ok (x ∷ bs)) whole)

length-hex_encode : (bs : List ℕ) → length (hex_encode bs) ≡ length bs * 2
unfolding hex_encode
length-hex_encode [] = refl
length-hex_encode (b ∷ bs) = omega (arith, length-hex_encode bs)

-- Hexadecimal text of bytes reads back as the bytes.
hex_decode-hex_encode : (bs : List ℕ) → All IsByte bs → hex_decode (hex_encode bs) ≡ ok bs
unfolding hex_decode
hex_decode-hex_encode bs a =
    let even : (length (hex_encode bs) % 2 == 0) ≡ true = ground (arith, length-hex_encode bs) in
    rw (utf8-graphic (hex_encode bs) (hex_encode-IsGraphic bs a), even) (hex_pairs-hex_encode bs a)

peer_len :
    (p : PeerId)
    → length p.signing_public ≡ 32
    → length p.encryption_public ≡ 32
    → 64 ≡ length (peer_to_bytes p)
unfolding peer_to_bytes
peer_len p hs he = omega (arith, length-append p.signing_public p.encryption_public, hs, he)

module _ (A : Addresses) (law : Printable A) where
  decode_address-address_bytes :
      (o : Option A.Address) → decode_address A (address_bytes A o) ≡ ok o
  unfolding decode_address
  decode_address-address_bytes none = refl
  decode_address-address_bytes (some a) = rw (law.print_utf8 a, law.parse_print a) refl

  address_bytes-IsByte : (o : Option A.Address) → All IsByte (address_bytes A o)
  address_bytes-IsByte none = (omega arith, tt)
  address_bytes-IsByte (some a) = (omega arith, law.print_bytes a)

  address_bytes-some : (o : Option A.Address) → 1 ≤ length (address_bytes A o)
  address_bytes-some none = omega arith
  address_bytes-some (some a) = omega arith

  -- An invite code whose peer has two keys of 32 bytes is read back from its text, with its address
  -- or without, where an address prints as UTF-8 text that parses back to it.
  pub invite-decode-encode :
      (invite : InviteCode A)
      → length invite.peer_id.signing_public ≡ 32
      → length invite.peer_id.encryption_public ≡ 32
      → All IsByte (peer_to_bytes invite.peer_id)
      → decode A (encode A invite) ≡ ok invite
  unfolding decode encode
  invite-decode-encode invite hs he bytes =
      let p = peer_to_bytes invite.peer_id in
      let a = address_bytes A invite.address in
      let len : 64 ≡ length p = peer_len invite.peer_id hs he in
      let all : All IsByte (p ++ a) =
        All-append IsByte p a bytes (address_bytes-IsByte invite.address) in
      let long : leb 65 (length (p ++ a)) ≡ true =
        ground (arith, length-append p a, len, address_bytes-some invite.address) in
      rw
        (
          trim-graphic (hex_encode (p ++ a)) (hex_encode-IsGraphic (p ++ a) all),
          hex_decode-hex_encode (p ++ a) all,
          long,
          take-append p a 64 len,
          drop-append p a 64 len,
          peer_from_bytes-peer_to_bytes invite.peer_id hs he,
          decode_address-address_bytes invite.address,
        )
        refl
