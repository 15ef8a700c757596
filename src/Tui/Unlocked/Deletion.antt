-- ===== src/Tui/Unlocked/Deletion.antt =====
-- tui/widgets/vaults/unlocked.rs: which keys change the vault's file.
use re_vault.Prelude.{
  ℕ, ◌≡◌, refl, ap, ◌∙◌, Bool, true, false, List, [], ◌∷◌, Option, none, some, ◌==◌, if◌then◌else◌,
  Bool-cases, inl, inr,
}
use re_vault.Error.{VaultError}
use re_vault.Vault.State.{Platform, Outcome, done, failed, loops, take_change_log}
use re_vault.Vault.Files.{FileInfo, delete_file}
use re_vault.Vault.Lifecycle.{chain_state}
use re_vault.Vault.ChangeLog.Reads.{Quiet-list_files, Quiet-verify_integrity}
use re_vault.Session.{record_activity}
use re_vault.Tui.Key.{KeyCode, char, enter, esc, backspace, tab, back_tab, up, down, other, System}
use re_vault.Tui.Bridge.{NetworkSession}
use re_vault.Tui.Unlocked.{
  UnlockedState, AddFileForm, UpdateFileForm, Flow, goes_on, moved, move_up, move_down, start_add,
  start_update, request_delete, selected_name, with_update_form, with_delete_confirm,
}
use re_vault.Tui.Unlocked.Submit.{
  with_files, recorded, record_patch_if_serving, refresh_files, settle, mutate, confirm_delete,
  with_integrity, verify,
}
use re_vault.Tui.Unlocked.Keys.{
  delete_key, char_key, browse_key, dispatch, handle_key, is_yes, is_no,
}

abbrev pub file_of : UnlockedState → List ℕ
file_of s = s.vault.file

file-with_files :
    (o : Outcome (List FileInfo)) (s : UnlockedState) → file_of (with_files o s) ≡ file_of s
file-with_files (done files) s = refl
file-with_files (failed e) s = refl
file-with_files loops s = refl

file-recorded :
    (n : ℕ) (o : Option NetworkSession) (s : UnlockedState) → file_of (recorded n o s) ≡ file_of s
unfolding take_change_log
file-recorded n none s = refl
file-recorded n (some net) s = refl

file-record_patch_if_serving :
    (n : ℕ) (s : UnlockedState) → file_of (record_patch_if_serving n s) ≡ file_of s
unfolding record_patch_if_serving
file-record_patch_if_serving n s = file-recorded n s.network s

module _ (w : Platform) where
  file-refresh_files : (s : UnlockedState) → file_of (refresh_files w s) ≡ file_of s
  unfolding refresh_files
  file-refresh_files s = file-with_files _ _ ∙ (Quiet-list_files w).file s.vault

  -- The file after a mutation's arms is the file that the mutation left.
  file-settle :
      (n : ℕ) (o : Outcome Unit) (close : UnlockedState → UnlockedState)
      (fail : VaultError → UnlockedState → UnlockedState) (s : UnlockedState)
      → ((t : UnlockedState) → file_of (close t) ≡ file_of t)
      → ((e : VaultError) (t : UnlockedState) → file_of (fail e t) ≡ file_of t)
      → file_of (settle w n o close fail s).1 ≡ file_of s
  unfolding settle
  file-settle n (done _) close fail s hc hf =
      hc (refresh_files w (record_patch_if_serving n s))
      ∙ file-refresh_files (record_patch_if_serving n s)
      ∙ file-record_patch_if_serving n s
  file-settle n (failed e) close fail s hc hf = hf e s
  file-settle n loops close fail s hc hf = refl

  file-confirm_delete :
      (name : List ℕ) (s : UnlockedState)
      → file_of (confirm_delete w name s).1 ≡ (delete_file w name s.vault).1.file
  unfolding confirm_delete mutate
  file-confirm_delete name s =
      file-settle (chain_state s.vault).0 (delete_file w name s.vault).0 _ _
        (record s { vault = (delete_file w name s.vault).1; delete_confirm = none }) (λ t. refl)
        (λ e t. refl)

  -- What handlers that only look leave the file as.
  record Looks (s : UnlockedState) (r : Flow × UnlockedState) : Type 0 where
    same : file_of r.1 ≡ file_of s

  Looks-if :
      {s : UnlockedState} (b : Bool) {r t : Flow × UnlockedState}
      → Looks s r
      → Looks s t
      → Looks s (if b then r else t)
  Looks-if true m n = m
  Looks-if false m n = n

  file-with_update_form :
      (o : Option (List ℕ)) (s : UnlockedState) → file_of (with_update_form o s) ≡ file_of s
  file-with_update_form none s = refl
  file-with_update_form (some name) s = refl

  file-with_delete_confirm :
      (o : Option (List ℕ)) (s : UnlockedState) → file_of (with_delete_confirm o s) ≡ file_of s
  file-with_delete_confirm none s = refl
  file-with_delete_confirm (some name) s = refl

  file-moved : (fs : List FileInfo) (i : ℕ) (s : UnlockedState) → file_of (moved fs i s) ≡ file_of s
  file-moved [] i s = refl
  file-moved (f ∷ fs) i s = refl

  file-with_integrity :
      (o : Outcome Unit) (s : UnlockedState) → file_of (with_integrity o s).1 ≡ file_of s
  file-with_integrity (done _) s = refl
  file-with_integrity (failed e) s = refl
  file-with_integrity loops s = refl

  Looks-verify : (s : UnlockedState) → Looks s (verify w s)
  unfolding verify
  Looks-verify s = record {
    same = file-with_integrity _ _ ∙ (Quiet-verify_integrity w).file s.vault;
  }

  Looks-char_key : (c : ℕ) (s : UnlockedState) → Looks s (char_key w c s)
  unfolding char_key start_add start_update request_delete
  Looks-char_key c s =
      Looks-if (c == b'q') (record { same = refl })
        (Looks-if (c == b'a') (record { same = refl })
          (Looks-if (c == b'u') (record { same = file-with_update_form _ s })
            (Looks-if (c == b'd') (record { same = file-with_delete_confirm _ s })
              (Looks-if (c == b'v') (Looks-verify s) (record { same = refl })))))

  Looks-browse_key : (key : KeyCode) (s : UnlockedState) → Looks s (browse_key w key s)
  unfolding browse_key move_up move_down
  Looks-browse_key esc s = record { same = refl }
  Looks-browse_key up s = record { same = file-moved s.files _ s }
  Looks-browse_key down s = record { same = file-moved s.files _ s }
  Looks-browse_key (char c) s = Looks-char_key c s
  Looks-browse_key enter s = record { same = refl }
  Looks-browse_key backspace s = record { same = refl }
  Looks-browse_key tab s = record { same = refl }
  Looks-browse_key back_tab s = record { same = refl }
  Looks-browse_key other s = record { same = refl }

  -- With no form open and no question asked, no key changes the vault's file.
  file-handle_key :
      (system : System) (key : KeyCode) (s : UnlockedState)
      → s.add_form ≡ none
      → s.update_form ≡ none
      → s.delete_confirm ≡ none
      → file_of (handle_key w system key s).1 ≡ file_of s
  unfolding handle_key dispatch
  file-handle_key system key s no_add no_update no_delete =
      rw (no_add, no_update, no_delete) (Looks-browse_key key _).same

  -- The state in which the question is asked.
  abbrev asking : System → List ℕ → UnlockedState → UnlockedState
  asking system name s = record s {
    session = record_activity system.now s.session;
    delete_confirm = some name;
  }

  dispatch-browse_key :
      (system : System) (key : KeyCode) (add : Option AddFileForm) (update : Option UpdateFileForm)
      (delete : Option (List ℕ)) (s : UnlockedState)
      → add ≡ none
      → update ≡ none
      → delete ≡ none
      → dispatch w system key add update delete s ≡ browse_key w key s
  unfolding dispatch
  dispatch-browse_key system key add update delete s no_add no_update no_delete =
      rw (no_add, no_update, no_delete) refl

  asked :
      (first : System) (s : UnlockedState) (name : List ℕ)
      → s.add_form ≡ none
      → s.update_form ≡ none
      → s.delete_confirm ≡ none
      → selected_name s ≡ some name
      → handle_key w first (char b'd') s ≡ (goes_on, asking first name s)
  unfolding handle_key browse_key char_key request_delete selected_name
  asked first s name no_add no_update no_delete selected =
      let t : UnlockedState = record s { session = record_activity first.now s.session } in
      dispatch-browse_key first (char b'd') s.add_form s.update_form s.delete_confirm t no_add
        no_update no_delete
      ∙ ap (λ o. (goes_on, with_delete_confirm o t)) selected

  Looks-refuse :
      (key : KeyCode) (s : UnlockedState)
      → Looks s (if is_no key then (goes_on, record s { delete_confirm = none }) else (goes_on, s))
  Looks-refuse key s = Looks-if (is_no key) (record { same = refl }) (record { same = refl })

  answered :
      (first second : System) (key : KeyCode) (s : UnlockedState) (name : List ℕ)
      → s.add_form ≡ none
      → s.update_form ≡ none
      → file_of (handle_key w second key (asking first name s)).1
        ≡ (if is_yes key then (delete_file w name s.vault).1.file else file_of s)
  unfolding handle_key dispatch delete_key
  answered first second key s name no_add no_update = elim (Bool-cases (is_yes key)) [
    | inl yes_said ↦ rw (no_add, no_update, yes_said) (file-confirm_delete name _)
    | inr not_said ↦ rw (no_add, no_update, not_said) (Looks-refuse key _).same
  ]

  -- `d` with a file selected and no form open, then any other key: where that key says yes, the vault's
  -- file becomes what `delete_file` makes of it with the name of the file that was selected at `d`, and
  -- otherwise it stays as it was before `d`.
  pub file-delete :
      (first second : System) (key : KeyCode) (s : UnlockedState) (name : List ℕ)
      → s.add_form ≡ none
      → s.update_form ≡ none
      → s.delete_confirm ≡ none
      → selected_name s ≡ some name
      → file_of (handle_key w second key (handle_key w first (char b'd') s).1).1
        ≡ (if is_yes key then (delete_file w name s.vault).1.file else file_of s)
  file-delete first second key s name no_add no_update no_delete selected =
      ap (λ r. file_of (handle_key w second key r.1).1)
        (asked first s name no_add no_update no_delete selected)
      ∙ answered first second key s name no_add no_update
