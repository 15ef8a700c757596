-- ===== src/Net/Invite.antt =====
-- net/invite.rs: invite codes, a peer and maybe an address as hexadecimal text. Socket addresses, with
-- how the standard library prints and parses them, are the parameter `Addresses`.
pub mod RoundTrip
use re_vault.Prelude.{
  ℕ, ◌+◌, ◌-◌, ◌*◌, ◌/◌, ◌%◌, ◌≡◌, true, ◌&&◌, List, [], ◌∷◌, ◌++◌, Option, none, some, length,
  take, drop, leb, ◌==◌, if◌then◌else◌, All, IsByte,
}
use re_vault.Error.{corrupt_container, Result, ok, err, ◌>>=◌, ◌>>◌, ensure}
use re_vault.Utf8.{is_utf8}
use re_vault.Identity.{PeerId, peer_to_bytes, peer_from_bytes, hex_char}
use re_vault.Text.{Text, trim, utf8}

-- `SocketAddr`: its `to_string().as_bytes()` and its `parse`.
pub record Addresses : Type 1 where
  pub Address : Type 0
  pub print : Address → List ℕ
  pub parse : List ℕ → Option Address

-- What is documented of them: the printed form is text, and parses back to the address.
pub record Printable (A : Addresses) : Type 0 where
  pub parse_print : (a : A.Address) → A.parse (A.print a) ≡ some a
  pub print_bytes : (a : A.Address) → All IsByte (A.print a)
  pub print_utf8 : (a : A.Address) → is_utf8 (A.print a) ≡ true

unfoldable pub hex_encode : List ℕ → Text
hex_encode [] = []
hex_encode (b ∷ bs) = hex_char (b / 16) ∷ hex_char (b % 16) ∷ hex_encode bs

unfoldable pub hex_digit : ℕ → Result ℕ
hex_digit c =
    if leb b'0' c && leb c b'9'
    then ok (c - b'0')
    else if leb b'a' c && leb c b'f'
    then ok (c - b'a' + 10)
    else if leb b'A' c && leb c b'F'
    then ok (c - b'A' + 10)
    else err (corrupt_container "invite code contains a non-hex character")

-- The pairs of `bytes.chunks(2)`, of an even number of bytes. Of `(hi << 4) | lo` the low four bits of
-- `hi << 4` are clear, and both digits are below 16.
unfoldable pub hex_pairs : List ℕ → Result (List ℕ)
hex_pairs [] = ok []
hex_pairs (c ∷ []) = ok []
hex_pairs (c ∷ d ∷ s) = do
  hi ← hex_digit c
  lo ← hex_digit d
  out ← hex_pairs s
  ok ((hi * 16 + lo) ∷ out)

unfoldable pub hex_decode : Text → Result (List ℕ)
hex_decode s = do
  ensure (length (utf8 s) % 2 == 0) (corrupt_container "invite code has odd length")
  hex_pairs (utf8 s)

module _ (A : Addresses) where
  pub record InviteCode : Type 0 where
    pub peer_id : PeerId
    pub address : Option A.Address

  abbrev pub address_bytes : Option A.Address → List ℕ
  address_bytes none = 0 ∷ []
  address_bytes (some addr) = 1 ∷ A.print addr

  unfoldable pub encode : InviteCode → Text
  encode invite = hex_encode (peer_to_bytes invite.peer_id ++ address_bytes invite.address)

  abbrev pub parsed : Option A.Address → Result (Option A.Address)
  parsed none = err (corrupt_container "invite code has an invalid address")
  parsed (some addr) = ok (some addr)

  -- The bytes from the 65th on: the marker and the address.
  unfoldable pub decode_address : List ℕ → Result (Option A.Address)
  decode_address [] = err (corrupt_container "invite code is too short")
  decode_address (has_addr ∷ text) =
      if has_addr == 0
      then ok none
      else if has_addr == 1
      then (do
        ensure (is_utf8 text) (corrupt_container "invite code address is not valid UTF-8")
        parsed (A.parse text))
      else err (corrupt_container "invite code has an invalid address marker")

  unfoldable pub decode : Text → Result InviteCode
  decode s = do
    bytes ← hex_decode (trim s)
    ensure (leb 65 (length bytes)) (corrupt_container "invite code is too short")
    peer_id ← peer_from_bytes (take 64 bytes)
    address ← decode_address (drop 64 bytes)
    ok (record { peer_id = peer_id; address = address })
