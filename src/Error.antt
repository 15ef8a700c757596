-- ===== src/Error.antt =====
-- core/error.rs: the errors, and `Result` with its `?` as a bind.
use mathlib.Core.Bool.{Bool, true, false}
use mathlib.Core.List.{List}
use Prim.Native.Nat.{ℕ}
use Prim.Native.String.{String}

-- The kinds of `std::io::Error` that the modelled code meets.
pub data IoError : Type 0 where
  unexpected_eof invalid_data invalid_input already_exists not_found : IoError

-- A `String` payload that is a name or a remote text is its bytes; a static text is a `String`.
pub data VaultError : Type 0 where
  io : IoError → VaultError
  not_a_rvlt_file : VaultError
  unsupported_version : ℕ → ℕ → ℕ → VaultError
  corrupt_container : String → VaultError
  checksum_mismatch : String → VaultError
  incorrect_password : VaultError
  crypto_failure : VaultError
  capacity_too_small : VaultError
  insufficient_space : ℕ → ℕ → VaultError
  file_table_full : VaultError
  file_not_found : List ℕ → VaultError
  file_already_exists : List ℕ → VaultError
  integrity_violation : String → VaultError
  field_too_long : VaultError
  vault_locked : VaultError
  not_authorized : VaultError
  access_not_granted : VaultError
  already_granted : VaultError
  recipient_table_full : VaultError
  remote : List ℕ → VaultError

pub data Result {ℓ} (A : Type ℓ) : Type ℓ where
  ok : A → Result A
  err : VaultError → Result A

infixl 5 ◌>>=◌ ◌>>◌
-- `?`: an error ends the function.
abbrev pub ◌>>=◌ : {A B : Type 0} → Result A → (A → Result B) → Result B
◌>>=◌ (err e) next = err e
◌>>=◌ (ok value) next = next value

abbrev pub ◌>>◌ : {B : Type 0} → Result (Unit {0}) → Result B → Result B
◌>>◌ (err e) rest = err e
◌>>◌ (ok done) rest = rest

-- `if !test { return Err(e) }`
abbrev pub ensure : Bool → VaultError → Result (Unit {0})
ensure false e = err e
ensure true e = ok tt
