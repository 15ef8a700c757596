-- ===== src/Tui/Unlocked/Serving.antt =====
-- tui/widgets/vaults/unlocked.rs: the journal of a vault that is served while it is browsed.
pub mod Press
use re_vault.Prelude.{
  ℕ, ◌+◌, ◌^◌, ◌≤◌, ◌<◌, ◌≡◌, refl, ap, ◌∙◌, Bool, true, false, List, Option, none, some,
  if◌then◌else◌, arith,
}
use re_vault.Error.{VaultError}
use re_vault.Text.{trim, is_empty}
use re_vault.Vault.State.{Platform, Vault, Outcome, done, failed, loops, M, take_change_log}
use re_vault.Vault.Files.{FileInfo, list_files}
use re_vault.Vault.Lifecycle.{chain_state}
use re_vault.Vault.ChangeLog.Rules.{Logged}
use re_vault.Vault.ChangeLog.Mutations.{Logged-add_file, Logged-update_file}
use re_vault.Vault.ChainCount.Rules.{seq_of, Counts, counted}
use re_vault.Vault.ChainCount.Methods.{Counts-add_file, Counts-update_file}
use re_vault.Vault.ChainCount.Reads.{Logged-list_files, Steady-list_files}
use re_vault.Net.Journal.Live.{Steps, here, then_step, Step-Logged, Step-recorded, Step-unrecorded}
use re_vault.Tui.Key.{System}
use re_vault.Tui.Bridge.{NetworkSession}
use re_vault.Tui.Unlocked.{UnlockedState, AddFileForm, UpdateFileForm, Flow}
use re_vault.Tui.Unlocked.Submit.{
  with_files, recorded, record_patch_if_serving, refresh_files, settle, mutate, add_read,
  update_read, update_target,
}

-- From one state to another of a vault that is served all the while: its journal keeps step with it.
-- At most `n` changes were made, so the chain has moved on by `n` at most.
pub record Goes (net : NetworkSession) (v : Vault) (n : ℕ) (t : UnlockedState) : Type 0 where
  pub after : NetworkSession
  pub kept : t.network ≡ some after
  pub steps : Steps v net.journal t.vault after.journal
  pub near : seq_of t.vault ≤ seq_of v + n

-- The same of what a handler leaves.
pub record Handles (net : NetworkSession) (v : Vault) (r : Flow × UnlockedState) : Type 0 where
  pub goes : Goes net v 1 r.1

pub Handles-if :
    {net : NetworkSession} {v : Vault} (b : Bool) {r t : Flow × UnlockedState}
    → Handles net v r
    → Handles net v t
    → Handles net v (if b then r else t)
Handles-if true m n = m
Handles-if false m n = n

-- The forms, the messages and the clock are of no account.
pub Goes-form :
    {net : NetworkSession} {v : Vault} {n : ℕ} (t u : UnlockedState)
    → u.vault ≡ t.vault
    → u.network ≡ t.network
    → Goes net v n t
    → Goes net v n u
Goes-form t u e f g = record {
  after = g.after;
  kept = f ∙ g.kept;
  steps = rw (e) g.steps;
  near = rw (e) g.near;
}

module _ (w : Platform) (net : NetworkSession) (s : UnlockedState)
    (serving : s.network ≡ some net) where
  Goes-same : Goes net s.vault 1 s
  Goes-same = record { after = net; kept = serving; steps = here; near = omega arith }

  -- The files listed again after a step.
  Goes-with_files :
      (o : Outcome (List FileInfo)) (t : UnlockedState)
      → Goes net s.vault 1 t
      → Goes net s.vault 1 (with_files o t)
  Goes-with_files (done files) t g = record {
    after = g.after;
    kept = g.kept;
    steps = g.steps;
    near = g.near;
  }
  Goes-with_files (failed e) t g = record {
    after = g.after;
    kept = g.kept;
    steps = g.steps;
    near = g.near;
  }
  Goes-with_files loops t g = g

  Goes-refresh_files :
      (t : UnlockedState) → Goes net s.vault 1 t → Goes net s.vault 1 (refresh_files w t)
  unfolding refresh_files
  Goes-refresh_files t g =
      Goes-with_files (list_files w t.vault).0 (record t { vault = (list_files w t.vault).1 })
        (record {
          after = g.after;
          kept = g.kept;
          steps = then_step g.steps (
              Step-Logged (list_files w) t.vault g.after.journal (Logged-list_files w)
                (omega (arith, (Steady-list_files w).seq t.vault)));
          near = omega (arith, g.near, (Steady-list_files w).seq t.vault);
        })

  -- The session once a patch is recorded.
  Goes-recorded :
      (m : M Unit) (o : Option NetworkSession)
      → o ≡ some net
      → Logged m
      → Counts m
      → seq_of s.vault + 1 < 2 ^ 64
      → (m s.vault).0 ≡ done tt
      → Goes net s.vault 1
          (recorded (seq_of s.vault) o (record s { vault = (m s.vault).1; network = o }))
  unfolding take_change_log
  Goes-recorded m none e l c bound ended = cc
  Goes-recorded m (some held) e l c bound ended =
      let same : held ≡ net = some_inv e in
      rw (same) (record {
        after = _;
        kept = refl;
        steps = then_step here (Step-recorded m s.vault net.journal l c bound ended);
        near = omega (arith, c.seq s.vault ∙ ap (λ o. counted o (seq_of s.vault)) ended, bound);
      })
    where
      some_inv : {a b : NetworkSession} → some a ≡ some b → a ≡ b
      some_inv e = cc

  Goes-unrecorded :
      (m : M Unit)
      → Logged m
      → Counts m
      → seq_of s.vault + 1 < 2 ^ 64
      → Goes net s.vault 1 (record s { vault = (m s.vault).1 })
  Goes-unrecorded m l c bound = record {
    after = net;
    kept = serving;
    steps = then_step here (Step-unrecorded m s.vault net.journal l c bound);
    near = counted_near (m s.vault).0 (c.seq s.vault);
  }
    where
      counted_near :
          (o : Outcome Unit)
          → seq_of (m s.vault).1 ≡ counted o (seq_of s.vault)
          → seq_of (m s.vault).1 ≤ seq_of s.vault + 1
      counted_near (done _) e = omega (arith, e, bound)
      counted_near (failed x) e = omega (arith, e)
      counted_near loops e = omega (arith, e)

  module _ (bound : seq_of s.vault + 1 < 2 ^ 64) where
    Handles-settle :
        (m : M Unit) (o : Outcome Unit) (close : UnlockedState → UnlockedState)
        (fail : VaultError → UnlockedState → UnlockedState)
        → Logged m
        → Counts m
        → (m s.vault).0 ≡ o
        → ((t : UnlockedState) → Goes net s.vault 1 t → Goes net s.vault 1 (close t))
        → ((e : VaultError) (t : UnlockedState)
            → Goes net s.vault 1 t
            → Goes net s.vault 1 (fail e t))
        → Handles net s.vault
            (settle w (seq_of s.vault) o close fail (record s { vault = (m s.vault).1 }))
    unfolding settle record_patch_if_serving
    Handles-settle m (done _) close fail l c e hc hf = record {
      goes =
          let t : UnlockedState =
            record_patch_if_serving (seq_of s.vault) (record s { vault = (m s.vault).1 }) in
          hc (refresh_files w t)
            (Goes-refresh_files t (Goes-recorded m s.network serving l c bound e));
    }
    Handles-settle m (failed x) close fail l c e hc hf = record {
      goes = hf x _ (Goes-unrecorded m l c bound);
    }
    Handles-settle m loops close fail l c e hc hf = record { goes = Goes-unrecorded m l c bound }

    pub Handles-mutate :
        (m : M Unit) (close : UnlockedState → UnlockedState)
        (fail : VaultError → UnlockedState → UnlockedState)
        → Logged m
        → Counts m
        → ((t : UnlockedState) → Goes net s.vault 1 t → Goes net s.vault 1 (close t))
        → ((e : VaultError) (t : UnlockedState)
            → Goes net s.vault 1 t
            → Goes net s.vault 1 (fail e t))
        → Handles net s.vault (mutate w m close fail s)
    unfolding mutate chain_state
    Handles-mutate m close fail l c hc hf = Handles-settle m (m s.vault).0 close fail l c refl hc hf

    pub Handles-stays :
        (f : Flow) (t : UnlockedState)
        → t.vault ≡ s.vault
        → t.network ≡ s.network
        → Handles net s.vault (f, t)
    Handles-stays f t e g = record { goes = Goes-form s t e g Goes-same }

    pub Handles-add_read :
        (form : AddFileForm) (o : Option (List ℕ)) → Handles net s.vault (add_read w form o s)
    unfolding add_read
    Handles-add_read form none = Handles-stays _ _ refl refl
    Handles-add_read form (some contents) =
        Handles-mutate _ _ _ (Logged-add_file w _ contents) (Counts-add_file w _ contents)
          (λ t. Goes-form t _ refl refl) (λ e t. Goes-form t _ refl refl)

    Handles-update_read :
        (form : UpdateFileForm) (target : List ℕ) (o : Option (List ℕ))
        → Handles net s.vault (update_read w form target o s)
    unfolding update_read
    Handles-update_read form target none = Handles-stays _ _ refl refl
    Handles-update_read form target (some contents) =
        Handles-mutate _ _ _ (Logged-update_file w target contents)
          (Counts-update_file w target contents) (λ t. Goes-form t _ refl refl)
          (λ e t. Goes-form t _ refl refl)

    pub Handles-update_target :
        (system : System) (form : UpdateFileForm) (o : Option (List ℕ))
        → Handles net s.vault (update_target w system form o s)
    unfolding update_target
    Handles-update_target system form none = Handles-stays _ _ refl refl
    Handles-update_target system form (some target) =
        Handles-if (is_empty (trim form.source_path)) (Handles-stays _ _ refl refl)
          (Handles-update_read form target _)
