-- ===== src/Vault/ChainCount/Mutation.antt =====
-- core/vault.rs: `chain_state` around a mutation.
use re_vault.Prelude.{◌≡◌}
use re_vault.Vault.State.{Platform, Vault}
use re_vault.Vault.Lifecycle.{chain_state}
use re_vault.Vault.Mutation.{Mutation, add, update, delete, grant, revoke, run}
use re_vault.Vault.ChainCount.Rules.{Counts, counted}
use re_vault.Vault.ChainCount.Methods.{Counts-add_file, Counts-update_file, Counts-delete_file}
use re_vault.Vault.ChainCount.Access.{Counts-grant_access, Counts-revoke_access}

pub Counts-run : (w : Platform) (m : Mutation) → Counts (run w m)
unfolding run
Counts-run w (add name bytes) = Counts-add_file w name bytes
Counts-run w (update name bytes) = Counts-update_file w name bytes
Counts-run w (delete name) = Counts-delete_file w name
Counts-run w (grant peer) = Counts-grant_access w peer
Counts-run w (revoke key password) = Counts-revoke_access w key password

-- A mutation that succeeds moves the chain's next number on by exactly one, modulo 2^64, and one that
-- fails, at whatever point, or does not end, leaves it as it was.
pub chain_state-run :
    (w : Platform) (m : Mutation) (v : Vault)
    → (chain_state (run w m v).1).0 ≡ counted (run w m v).0 (chain_state v).0
unfolding chain_state
chain_state-run w m v = (Counts-run w m).seq v
