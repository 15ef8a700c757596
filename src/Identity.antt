-- ===== src/Identity.antt =====
-- core/identity.rs: a device's two keypairs, its public `PeerId`, and the identity file.
pub mod Laws
use re_vault.Prelude.{
  ℕ, ◌+◌, ◌-◌, ◌/◌, ◌%◌, Bool, ◌&&◌, List, [], ◌∷◌, ◌++◌, Option, none, some, length, take, drop,
  ltb, ◌==◌, if◌then◌else◌, bytes_eq,
}
use re_vault.Error.{corrupt_container, Result, ok, err}
use re_vault.Crypto.{Primitives}

pub record PeerId : Type 0 where
  pub signing_public : List ℕ
  pub encryption_public : List ℕ

-- `==` as derived
unfoldable pub peer_eq : PeerId → PeerId → Bool
peer_eq p q =
    bytes_eq p.signing_public q.signing_public && bytes_eq p.encryption_public q.encryption_public

unfoldable pub peer_to_bytes : PeerId → List ℕ
peer_to_bytes p = p.signing_public ++ p.encryption_public

unfoldable pub peer_from_bytes : List ℕ → Result PeerId
peer_from_bytes bytes =
    if length bytes == 64
    then ok (record { signing_public = take 32 bytes; encryption_public = drop 32 bytes })
    else err (corrupt_container "malformed PeerId bytes")

-- The two secrets: an Ed25519 seed and an X25519 scalar.
pub record Identity : Type 0 where
  pub signing : List ℕ
  pub encryption : List ℕ

unfoldable pub to_bytes : Identity → List ℕ
to_bytes i = i.signing ++ i.encryption

unfoldable pub from_bytes : List ℕ → Identity
from_bytes bytes = record { signing = take 32 bytes; encryption = drop 32 bytes }

-- The file's contents, if it can be read, and the identity that would be generated. The result is
-- the identity in use and what is written to the file, if anything.
unfoldable pub load_or_create : Option (List ℕ) → Identity → Identity × Option (List ℕ)
load_or_create none fresh = (fresh, some (to_bytes fresh))
load_or_create (some bytes) fresh =
    if length bytes == 64 then (from_bytes bytes, none) else (fresh, some (to_bytes fresh))

-- One byte as two lower-case hexadecimal digits, `{b:02x}`.
unfoldable pub hex_char : ℕ → ℕ
hex_char d = if ltb d 10 then b'0' + d else b'a' + d - 10

unfoldable pub hex_encode : List ℕ → List ℕ
hex_encode [] = []
hex_encode (b ∷ bs) = hex_char (b / 16) ∷ hex_char (b % 16) ∷ hex_encode bs

module _ (c : Primitives) where
  unfoldable pub fingerprint : PeerId → List ℕ
  fingerprint p = hex_encode (take 8 (c.sha256 (p.signing_public ++ p.encryption_public)))

  unfoldable pub peer_id : Identity → PeerId
  peer_id i = record {
    signing_public = c.ed_public i.signing;
    encryption_public = c.x_public i.encryption;
  }

  unfoldable pub sign : Identity → List ℕ → List ℕ
  sign i message = c.ed_sign i.signing message
