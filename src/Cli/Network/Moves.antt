-- ===== src/Cli/Network/Moves.antt =====
-- cli/commands/network.rs: what one event can do to a serving session.
use re_vault.Prelude.{
  ◌+◌, ◌^◌, ◌≤◌, ◌<◌, ◌≡◌, refl, ap, ◌∙◌, Bool, true, false, if◌then◌else◌, arith,
}
use re_vault.Vault.State.{Outcome, done, failed, loops, M, take_change_log}
use re_vault.Vault.Lifecycle.{chain_state}
use re_vault.Vault.ChangeLog.Rules.{Logged}
use re_vault.Vault.ChainCount.Rules.{seq_of, Steady, Counts, counted}
use re_vault.Net.Journal.Live.{Steps, here, then_step, Step-Logged, Step-recorded, Step-unrecorded}
use re_vault.Cli.Network.{Serving, Reply, record_change, after_mutation, mutate}

-- A mutation that is logged and counted.
pub record Mutates (m : M Unit) : Type 0 where
  pub logs : Logged m
  pub counts : Counts m

-- What one event does to the session.
pub record Moves (s t : Serving) : Type 0 where
  pub steps : Steps s.vault s.journal t.vault t.journal
  pub near : seq_of t.vault ≤ seq_of s.vault + 1

-- The same of a command's outcome, for all that is tried before it.
pub record Reaches (s : Serving) (r : Reply × Serving) : Type 0 where
  pub moves : Moves s r.1

pub Reaches-if :
    {s : Serving} (b : Bool) {t u : Reply × Serving}
    → Reaches s t
    → Reaches s u
    → Reaches s (if b then t else u)
Reaches-if true m n = m
Reaches-if false m n = n

pub Moves-same : (s : Serving) → Moves s s
Moves-same s = record { steps = here; near = omega arith }

pub Moves-after :
    (m : M Unit) (s : Serving) (o : Outcome Unit)
    → Mutates m
    → seq_of s.vault + 1 < 2 ^ 64
    → (m s.vault).0 ≡ o
    → Moves s (after_mutation (seq_of s.vault) o (record s { vault = (m s.vault).1 })).1
unfolding after_mutation record_change take_change_log
Moves-after m s (done _) c bound e = record {
  steps = then_step here (Step-recorded m s.vault s.journal c.logs c.counts bound e);
  near = omega (arith, c.counts.seq s.vault ∙ ap (λ o. counted o (seq_of s.vault)) e, bound);
}
Moves-after m s (failed x) c bound e = record {
  steps = then_step here (Step-unrecorded m s.vault s.journal c.logs c.counts bound);
  near = omega (arith, c.counts.seq s.vault ∙ ap (λ o. counted o (seq_of s.vault)) e, bound);
}
Moves-after m s loops c bound e = record {
  steps = then_step here (Step-unrecorded m s.vault s.journal c.logs c.counts bound);
  near = omega (arith, c.counts.seq s.vault ∙ ap (λ o. counted o (seq_of s.vault)) e, bound);
}

pub Moves-mutate :
    (m : M Unit) (s : Serving) → Mutates m → seq_of s.vault + 1 < 2 ^ 64 → Moves s (mutate m s).1
unfolding mutate chain_state
Moves-mutate m s c bound = Moves-after m s (m s.vault).0 c bound refl

pub Moves-read :
    {A : Type 0} (m : M A) (s : Serving)
    → Logged m
    → Steady m
    → Moves s (record s { vault = (m s.vault).1 })
Moves-read m s l t = record {
  steps = then_step here (Step-Logged m s.vault s.journal l (omega (arith, t.seq s.vault)));
  near = omega (arith, t.seq s.vault);
}
