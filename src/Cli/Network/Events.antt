-- ===== src/Cli/Network/Events.antt =====
-- cli/commands/network.rs: what the serving session's journal is worth to a peer that comes back.
use re_vault.Prelude.{
  ℕ, ◌+◌, ◌^◌, ◌≤◌, ◌<◌, ◌≡◌, Bool, List, [], ◌∷◌, ◌++◌, Option, none, some, length, ascii, String,
  Bool-cases, inl, inr, arith,
}
use re_vault.Text.{Text}
use re_vault.Vault.State.{Platform, Vault, Range, M, replay}
use re_vault.Vault.Files.{list_files, add_file, update_file, delete_file}
use re_vault.Vault.Lifecycle.{chain_state}
use re_vault.Vault.ChangeLog.Mutations.{Logged-add_file, Logged-update_file, Logged-delete_file}
use re_vault.Vault.ChainCount.Rules.{seq_of}
use re_vault.Vault.ChainCount.Methods.{Counts-add_file, Counts-update_file, Counts-delete_file}
use re_vault.Vault.ChainCount.Reads.{Logged-list_files, Steady-list_files}
use re_vault.Net.Journal.{new, ranges_since}
use re_vault.Net.Journal.Live.{Steps, here, Steps-append, InUse-Steps, replay-ranges_since-Steps}
use re_vault.Net.Sync.{serve_stream}
use re_vault.Cli.Network.{
  FileReads, Serving, Reply, keeps_on, stops, is_word, Event, connection, accept_error, input,
  end_of_input, import_as, import_command, delete_command, list_command, command, handle_command,
  step, serve_loop, execute, two_args,
}
use re_vault.Net.Sync.Reads.{Logged-serve_stream, Steady-serve_stream}
use re_vault.Cli.Network.Moves.{
  Mutates, Moves, Reaches, Reaches-if, Moves-same, Moves-mutate, Moves-read,
}

module _ (w : Platform) where
  Mutates-add : (name bytes : List ℕ) → Mutates (add_file w name bytes)
  Mutates-add name bytes = record {
    logs = Logged-add_file w name bytes;
    counts = Counts-add_file w name bytes;
  }

  Mutates-update : (name bytes : List ℕ) → Mutates (update_file w name bytes)
  Mutates-update name bytes = record {
    logs = Logged-update_file w name bytes;
    counts = Counts-update_file w name bytes;
  }

  Mutates-delete : (name : List ℕ) → Mutates (delete_file w name)
  Mutates-delete name = record {
    logs = Logged-delete_file w name;
    counts = Counts-delete_file w name;
  }

  module _ (read : FileReads) (s : Serving) (bound : seq_of s.vault + 1 < 2 ^ 64) where
    Moves-import_as :
        (op : List ℕ → List ℕ → M Unit)
        → ((name bytes : List ℕ) → Mutates (op name bytes))
        → (name : Text) (o : Option (List ℕ)) → Moves s (import_as w read op name o s).1
    unfolding import_as
    Moves-import_as op c name none = Moves-same s
    Moves-import_as op c name (some contents) = Moves-mutate _ s (c _ contents) bound

    Moves-import_command :
        (op : List ℕ → List ℕ → M Unit)
        → ((name bytes : List ℕ) → Mutates (op name bytes))
        → (args : Option (Text × Text)) → Moves s (import_command w read op args s).1
    unfolding import_command
    Moves-import_command op c none = Moves-same s
    Moves-import_command op c (some (src, name)) = Moves-import_as op c name _

    Moves-delete_command : (parts : List Text) → Moves s (delete_command w read parts s).1
    unfolding delete_command
    Moves-delete_command [] = Moves-same s
    Moves-delete_command (name ∷ more) = Moves-mutate _ s (Mutates-delete _) bound

    Reaches-command : (parts : List Text) → Reaches s (command w read parts s)
    unfolding command list_command
    Reaches-command [] = record { moves = Moves-same s }
    Reaches-command (word ∷ parts) =
        let is : String → Bool = λ name. is_word word (ascii name) in
        let same : (r : Reply) → Reaches s (r, s) = λ r. record { moves = Moves-same s } in
        Reaches-if (is "help") (same keeps_on) (
          Reaches-if (is "list")
            (record {
              moves = Moves-read (list_files w) s (Logged-list_files w) (Steady-list_files w);
            })
            (Reaches-if (is "add")
              (record { moves = Moves-import_command (add_file w) Mutates-add (two_args parts) })
              (Reaches-if (is "update")
                (record {
                  moves = Moves-import_command (update_file w) Mutates-update (two_args parts);
                })
                (Reaches-if (is "delete") (record { moves = Moves-delete_command parts })
                  (Reaches-if (is "quit") (same stops)
                    (Reaches-if (is "exit") (same stops) (same keeps_on)))))))

  module _ (s : Serving) (bound : seq_of s.vault + 1 < 2 ^ 64) where
    Moves-step : (e : Event) → Moves s (step w e s).1
    unfolding step handle_command
    Moves-step (connection channel peer stream) =
        Moves-read (serve_stream w channel peer (some s.journal) stream) s
          (Logged-serve_stream w channel peer _ stream)
          (Steady-serve_stream w channel peer _ stream)
    Moves-step accept_error = Moves-same s
    Moves-step (input read line) = (Reaches-command read s bound _).moves
    Moves-step end_of_input = Moves-same s

  -- What a run of events does, with how far the chain can have moved.
  record Ran (n : ℕ) (s t : Serving) : Type 0 where
    steps : Steps s.vault s.journal t.vault t.journal
    near : seq_of t.vault ≤ seq_of s.vault + n

  Ran-serve_loop :
      (es : List Event) (s : Serving)
      → seq_of s.vault + length es < 2 ^ 64
      → Ran (length es) s (serve_loop w es s)
  unfolding serve_loop
  Ran-serve_loop [] s bound = record { steps = here; near = omega arith }
  Ran-serve_loop (e ∷ es) s bound =
      let m = Moves-step s (omega (arith, bound)) e in
      elim (Bool-cases (step w e s).0) [
        | inl on ↦
            let r = Ran-serve_loop es (step w e s).1 (omega (arith, bound, m.near)) in
            rw (on) (record {
              steps = Steps-append m.steps r.steps;
              near = omega (arith, m.near, r.near);
            })
        | inr off ↦ rw (off) (record { steps = m.steps; near = omega (arith, m.near) })
      ]

  -- At any two points of a serving session, as long as the chain's first number and the number of
  -- events add up to less than 2^64: if the log was empty at the first point, then what the journal gives
  -- at the second, when it gives anything, to a peer that has the chain number and the file of the first,
  -- followed by what the log then holds, makes the peer's file the vault's file. Commands that failed,
  -- connections, dropped entries and source files that differ from one command to the next change nothing
  -- of that.
  pub ranges_since-serve_loop :
      (v : Vault) (es ds : List Event) (rs : List Range)
      → seq_of v + length es + length ds < 2 ^ 64
      → (execute w es v).vault.change_log ≡ []
      → ranges_since
          (serve_loop w ds (execute w es v)).journal
          (chain_state (execute w es v).vault).0
        ≡ some rs
      → replay
          (rs ++ (serve_loop w ds (execute w es v)).vault.change_log)
          (execute w es v).vault.file
        ≡ (serve_loop w ds (execute w es v)).vault.file
  unfolding execute chain_state new
  ranges_since-serve_loop v es ds rs bound empty e =
      let r = Ran-serve_loop es (record { vault = v; journal = new 64 }) (omega (arith, bound)) in
      let q = Ran-serve_loop ds (execute w es v) (omega (arith, bound, r.near)) in
      replay-ranges_since-Steps rs
        (InUse-Steps (record { increasing = omega arith; keeps = omega arith }) r.steps) empty
        q.steps e
