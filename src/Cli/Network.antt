-- ===== src/Cli/Network.antt =====
-- cli/commands/network.rs: the serving session, one vault handle and one journal that both the peers'
-- connections and the admin's lines act on. What is printed is left out.
pub mod Moves
pub mod Events
pub mod Reconnect
use re_vault.Prelude.{
  ℕ, Bool, true, false, List, [], ◌∷◌, Option, none, some, if◌then◌else◌, bytes_eq, ascii,
}
use re_vault.Error.{VaultError}
use re_vault.Identity.{PeerId}
use re_vault.Text.{Text, trim, utf8, split_whitespace}
use re_vault.Vault.State.{Platform, Vault, Outcome, done, failed, loops, M, take_change_log}
use re_vault.Vault.Files.{FileInfo, list_files, add_file, update_file, delete_file}
use re_vault.Vault.Lifecycle.{chain_state}
use re_vault.Net.Journal.{PatchJournal, new, record_patch}
use re_vault.Net.Handshake.{SecureChannel}
use re_vault.Net.Sync.{Answer, serve_stream}

-- The `std::io::Error`s of a command: `to_io_err`, `usage_err` and that of `std::fs::read`.
pub data CommandError : Type 0 where
  vault_error : VaultError → CommandError
  usage unreadable : CommandError

-- `Ok(true)`, `Ok(false)` and `Err(e)`; `hangs` is no value of the code: the command did not return.
pub data Reply : Type 0 where
  keeps_on stops : Reply
  fails : CommandError → Reply
  hangs : Reply

pub record Serving : Type 0 where
  pub vault : Vault
  pub journal : PatchJournal

-- `journal.record(seq, v.take_change_log())` after a mutation that succeeded
unfoldable pub record_change : ℕ → Serving → Serving
unfolding take_change_log
record_change seq s = record {
  vault = (take_change_log s.vault).1;
  journal = record_patch s.journal seq s.vault.change_log;
}

unfoldable pub after_mutation : ℕ → Outcome (Unit {0}) → Serving → Reply × Serving
after_mutation seq (done _) s = (keeps_on, record_change seq s)
after_mutation seq (failed e) s = (fails (vault_error e), s)
after_mutation seq loops s = (hangs, s)

unfoldable pub mutate : M Unit → Serving → Reply × Serving
mutate m s =
    after_mutation (chain_state s.vault).0 (m s.vault).0 (record s { vault = (m s.vault).1 })

abbrev pub listed : Outcome (List FileInfo) → Reply
listed (done infos) = keeps_on
listed (failed e) = fails (vault_error e)
listed loops = hangs

-- `two_args`: what follows the first two words is ignored.
abbrev pub two_args : List Text → Option (Text × Text)
two_args [] = none
two_args (a ∷ []) = none
two_args (a ∷ b ∷ more) = some (a, b)

abbrev pub is_word : Text → List ℕ → Bool
is_word word name = bytes_eq word name

-- `std::fs::read` as it is while one command runs: the file system may differ at the next.
abbrev pub FileReads : Type 0
FileReads = List ℕ → Option (List ℕ)

module _ (w : Platform) (read : FileReads) where
  -- With the bytes of the source file, if it could be read.
  unfoldable pub import_as :
      (List ℕ → List ℕ → M Unit) → Text → Option (List ℕ) → Serving → Reply × Serving
  import_as op name none s = (fails unreadable, s)
  import_as op name (some contents) s = mutate (op (utf8 name) contents) s

  unfoldable pub import_command :
      (List ℕ → List ℕ → M Unit) → Option (Text × Text) → Serving → Reply × Serving
  import_command op none s = (fails usage, s)
  import_command op (some (src, name)) s = import_as op name (read (utf8 src)) s

  unfoldable pub delete_command : List Text → Serving → Reply × Serving
  delete_command [] s = (fails usage, s)
  delete_command (name ∷ more) s = mutate (delete_file w (utf8 name)) s

  unfoldable pub list_command : Serving → Reply × Serving
  list_command s = (listed (list_files w s.vault).0, record s { vault = (list_files w s.vault).1 })

  unfoldable pub command : List Text → Serving → Reply × Serving
  command [] s = (keeps_on, s)
  command (word ∷ parts) s =
      if is_word word (ascii "help")
      then (keeps_on, s)
      else if is_word word (ascii "list")
      then list_command s
      else if is_word word (ascii "add")
      then import_command (add_file w) (two_args parts) s
      else if is_word word (ascii "update")
      then import_command (update_file w) (two_args parts) s
      else if is_word word (ascii "delete")
      then delete_command parts s
      else if is_word word (ascii "quit")
      then (stops, s)
      else if is_word word (ascii "exit")
      then (stops, s)
      else (keeps_on, s)

  unfoldable pub handle_command : Text → Serving → Reply × Serving
  handle_command line s = command (split_whitespace line) s

-- What `tokio::select!` picks: a connection, from the end of its handshake on, a failed one, a line of
-- input, with what files can then be read, or the end of the input.
pub data Event : Type 0 where
  connection : SecureChannel → PeerId → List ℕ → Event
  accept_error : Event
  input : FileReads → Text → Event
  end_of_input : Event

-- Whether the loop goes on; an error of a command or a connection is printed.
abbrev pub goes_on : Reply → Bool
goes_on keeps_on = true
goes_on (fails e) = true
goes_on stops = false
goes_on hangs = false

abbrev pub returned : Outcome Answer → Bool
returned loops = false
returned o = true

module _ (w : Platform) where
  unfoldable pub step : Event → Serving → Bool × Serving
  step (connection channel peer stream) s =
      let r = serve_stream w channel peer (some s.journal) stream s.vault in
      (returned r.0, record s { vault = r.1 })
  step accept_error s = (true, s)
  step (input read line) s = let r = handle_command w read (trim line) s in (goes_on r.0, r.1)
  step end_of_input s = (false, s)

  -- The loop of `Serve::execute` over the events to come, until it ends.
  unfoldable pub serve_loop : List Event → Serving → Serving
  serve_loop [] s = s
  serve_loop (e ∷ es) s =
      let rest = serve_loop es (step e s).1 in if (step e s).0 then rest else (step e s).1

  -- `Serve::execute`, once the vault is open.
  unfoldable pub execute : List Event → Vault → Serving
  execute es v = serve_loop es (record { vault = v; journal = new 64 })
