-- ===== src/Vault/ChangeLog/Replica.antt =====
-- core/vault.rs: `apply_remote_patch` on a replica, with what `take_change_log` handed out.
use re_vault.Prelude.{ℕ, ◌≡◌, refl, sym, ap, ◌∙◌, List, [], ◌∷◌}
use re_vault.Vault.State.{Platform, Vault, Range, done, ◌>>=◌, ◌>>◌, replay, take_change_log}
use re_vault.Vault.Mutation.{Mutation, add, update, delete, grant, revoke, run, run_all}
use re_vault.Vault.Verify.{write_ranges, reload, apply_remote_patch}
use re_vault.Vault.ChangeLog.Rules.{Logged, Quiet, quiet, replay-append}
use re_vault.Vault.ChangeLog.Mutations.{Logged-add_file, Logged-update_file, Logged-delete_file}
use re_vault.Vault.ChangeLog.Access.{Logged-grant_access, Logged-revoke_access}

module _ (w : Platform) where
  Logged-run : (m : Mutation) → Logged (run w m)
  unfolding run
  Logged-run (add name bytes) = Logged-add_file w name bytes
  Logged-run (update name bytes) = Logged-update_file w name bytes
  Logged-run (delete name) = Logged-delete_file w name
  Logged-run (grant peer) = Logged-grant_access w peer
  Logged-run (revoke key password) = Logged-revoke_access w key password

  -- What the log then holds replays, from the file that it was empty at, to the file.
  replay-change_log :
      (ms : List Mutation) (v : Vault) (base : List ℕ)
      → v.file ≡ replay v.change_log base
      → (run_all w ms v).file ≡ replay (run_all w ms v).change_log base
  unfolding run_all
  replay-change_log [] v base e = e
  replay-change_log (m ∷ ms) v base e =
      let l : Logged (run w m) = Logged-run m in
      replay-change_log ms (run w m v).1 base (
        l.file v
        ∙ ap (replay (l.ranges v)) e
        ∙ sym (replay-append v.change_log (l.ranges v) base)
        ∙ ap (λ rs. replay rs base) (sym (l.log v)))

  -- All that follows the writes of a patch reads the file only.
  rest-Quiet : Quiet (reload w)
  unfolding reload
  rest-Quiet = search quiet depth 20

  -- Applying a patch leaves the file that its ranges make, on every outcome.
  pub file-apply_remote_patch :
      (ranges : List Range) (u : Vault)
      → (apply_remote_patch w ranges u).1.file ≡ replay ranges u.file
  unfolding apply_remote_patch ◌>>◌ ◌>>=◌ write_ranges
  file-apply_remote_patch ranges u = rest-Quiet.file (record u { file = replay ranges u.file })

  -- After any sequence of mutations of a vault whose log was empty, whatever each returned,
  -- `take_change_log` hands out the log and empties it, and `apply_remote_patch` with that log, on
  -- every outcome, makes the file of a replica, the same as the vault's file was, the vault's file.
  pub apply_remote_patch-take_change_log :
      (ms : List Mutation) (v replica : Vault)
      → v.change_log ≡ []
      → replica.file ≡ v.file
      → (take_change_log (run_all w ms v)).0 ≡ done (run_all w ms v).change_log
        × (take_change_log (run_all w ms v)).1.change_log ≡ []
        × (apply_remote_patch w (run_all w ms v).change_log replica).1.file ≡ (run_all w ms v).file
  unfolding take_change_log replay
  apply_remote_patch-take_change_log ms v replica empty same = (
    refl,
    refl,
    file-apply_remote_patch _ replica
        ∙ ap (replay (run_all w ms v).change_log) same
        ∙ sym (replay-change_log ms v v.file (ap (λ rs. replay rs v.file) (sym empty))),
  )
