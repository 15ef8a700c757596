-- ===== src/Vault/Mutation.antt =====
-- core/vault.rs: the methods that mutate an open vault, as one operation.
use re_vault.Prelude.{ℕ, List, [], ◌∷◌}
use re_vault.Identity.{PeerId}
use re_vault.Vault.State.{Platform, Vault, M}
use re_vault.Vault.Files.{add_file, update_file, delete_file}
use re_vault.Vault.Peers.{grant_access, revoke_access}

pub data Mutation : Type 0 where
  add : List ℕ → List ℕ → Mutation
  update : List ℕ → List ℕ → Mutation
  delete : List ℕ → Mutation
  grant : PeerId → Mutation
  revoke : List ℕ → List ℕ → Mutation

unfoldable pub run : Platform → Mutation → M Unit
run w (add name bytes) = add_file w name bytes
run w (update name bytes) = update_file w name bytes
run w (delete name) = delete_file w name
run w (grant peer) = grant_access w peer
run w (revoke key password) = revoke_access w key password

-- One after the other, whatever each returns.
unfoldable pub run_all : Platform → List Mutation → Vault → Vault
run_all w [] v = v
run_all w (m ∷ ms) v = run_all w ms (run w m v).1
