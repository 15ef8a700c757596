-- ===== src/Vault/Authority.antt =====
-- core/vault.rs: who may mutate a vault.
use re_vault.Prelude.{ℕ, ◌≡◌, refl, ap, ◌∙◌, false, List, [], ◌∷◌, Option, bytes_eq, arith}
use re_vault.Error.{not_authorized, ok}
use re_vault.Identity.{Identity, peer_id}
use re_vault.Format.Header.{Header}
use re_vault.Vault.State.{Platform, Vault, failed, M, ◌>>=◌, ◌>>◌, gets, guard}
use re_vault.Vault.Storage.{require_admin, is_admin}
use re_vault.Vault.Files.{add_file, update_file, delete_file}
use re_vault.Vault.Peers.{grant_access, revoke_access}
use re_vault.Vault.Lifecycle.{opened, open_vault, open_as_recipient}
use re_vault.Vault.Mutation.{Mutation, add, update, delete, grant, revoke, run, run_all}

refused :
    {A : Type 0} (k : M A) (v : Vault)
    → is_admin v ≡ false
    → (require_admin >> k) v ≡ (failed not_authorized, v)
unfolding ◌>>◌ ◌>>=◌ require_admin gets guard
refused k v reader = rw (reader)

module _ (w : Platform) where
  -- Every mutation of a vault without an admin identity fails with `NotAuthorized` and changes
  -- nothing.
  pub run-not_authorized :
      (m : Mutation) (v : Vault) → is_admin v ≡ false → run w m v ≡ (failed not_authorized, v)
  unfolding run add_file update_file delete_file grant_access revoke_access
  run-not_authorized (add name bytes) v reader = refused _ v reader
  run-not_authorized (update name bytes) v reader = refused _ v reader
  run-not_authorized (delete name) v reader = refused _ v reader
  run-not_authorized (grant peer) v reader = refused _ v reader
  run-not_authorized (revoke key password) v reader = refused _ v reader

  admin-opened :
      (file : List ℕ) (h : Header) (key : List ℕ) (admin : Option Identity) (drawn : ℕ) (v : Vault)
      → opened w file h key admin drawn ≡ ok v
      → v.admin_identity ≡ admin × v.header ≡ h
  unfolding opened
  admin-opened file h key admin drawn v e = ground arith

  -- A vault that is opened as a recipient is never an admin's.
  pub is_admin-open_as_recipient :
      (file : List ℕ) (local : Identity) (drawn : ℕ) (v : Vault)
      → open_as_recipient w file local drawn ≡ ok v
      → is_admin v ≡ false
  unfolding open_as_recipient opened is_admin
  is_admin-open_as_recipient file local drawn v e = ground arith

  -- A vault that is opened with the password is an admin's exactly if the local signing key is the
  -- one in the header.
  pub is_admin-open_vault :
      (file password : List ℕ) (local : Identity) (drawn : ℕ) (v : Vault)
      → open_vault w file password local drawn ≡ ok v
      → is_admin v ≡ bytes_eq (peer_id w.crypto local).signing_public v.header.admin_signing_pubkey
  unfolding open_vault opened is_admin
  is_admin-open_vault file password local drawn v e = ground arith

  run_all-not_authorized :
      (ms : List Mutation) (v : Vault) → is_admin v ≡ false → run_all w ms v ≡ v
  unfolding run_all
  run_all-not_authorized [] v reader = refl
  run_all-not_authorized (m ∷ ms) v reader =
      ap (λ r. run_all w ms r.1) (run-not_authorized m v reader)
      ∙ run_all-not_authorized ms v reader

  -- No sequence of mutations changes a vault that was opened as a recipient.
  pub run_all-open_as_recipient :
      (file : List ℕ) (local : Identity) (drawn : ℕ) (ms : List Mutation) (v : Vault)
      → open_as_recipient w file local drawn ≡ ok v
      → run_all w ms v ≡ v
  run_all-open_as_recipient file local drawn ms v e =
      run_all-not_authorized ms v (is_admin-open_as_recipient file local drawn v e)
