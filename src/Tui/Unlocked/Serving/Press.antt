-- ===== src/Tui/Unlocked/Serving/Press.antt =====
-- tui/widgets/vaults/unlocked.rs: the keys pressed while a vault is served.
use re_vault.Tui.Unlocked.Serving.{
  Goes, Goes-form, Handles, Handles-if, Handles-stays, Handles-mutate, Handles-add_read,
  Handles-update_target,
}
use re_vault.Prelude.{
  ℕ, ◌+◌, ◌^◌, ◌<◌, ◌≡◌, refl, sym, ◌∙◌, ◌||◌, ◌==◌, List, [], ◌∷◌, ◌++◌, Option, none, some,
  length, arith,
}
use re_vault.Text.{trim, is_empty}
use re_vault.Session.{record_activity}
use re_vault.Vault.State.{Platform, Range, Outcome, done, failed, loops, replay}
use re_vault.Vault.Files.{FileInfo}
use re_vault.Vault.Verify.{verify_integrity}
use re_vault.Vault.ChangeLog.Rules.{Logged-Quiet}
use re_vault.Vault.ChangeLog.Mutations.{Logged-delete_file}
use re_vault.Vault.ChangeLog.Reads.{Quiet-verify_integrity}
use re_vault.Vault.ChainCount.Rules.{seq_of}
use re_vault.Vault.ChainCount.Methods.{Counts-delete_file}
use re_vault.Vault.ChainCount.Verify.{Steady-verify_integrity}
use re_vault.Net.Journal.{ranges_since}
use re_vault.Net.Journal.Live.{
  here, then_step, Steps-append, InUse, Step-Logged, replay-ranges_since-Steps,
}
use re_vault.Tui.Key.{KeyCode, char, enter, esc, backspace, tab, back_tab, up, down, other, System}
use re_vault.Tui.Bridge.{NetworkSession}
use re_vault.Tui.Unlocked.{
  UnlockedState, AddFileForm, UpdateFileForm, Flow, goes_on, moved, move_up, move_down, start_add,
  start_update, request_delete, with_update_form, with_delete_confirm,
}
use re_vault.Tui.Unlocked.Submit.{submit_add, submit_update, confirm_delete, with_integrity, verify}
use re_vault.Tui.Unlocked.Selection.{press}
use re_vault.Tui.Unlocked.Keys.{
  add_form_key, update_form_key, delete_key, char_key, browse_key, dispatch, handle_key, is_yes,
  is_no,
}

module _ (w : Platform) (net : NetworkSession) (s : UnlockedState) (serving : s.network ≡ some net)
    (bound : seq_of s.vault + 1 < 2 ^ 64) where
  stays :
      {f : Flow} {t : UnlockedState}
      → t.vault ≡ s.vault
      → t.network ≡ s.network
      → Handles net s.vault (f, t)
  stays e f = Handles-stays w net s serving bound _ _ e f

  Handles-confirm_delete : (name : List ℕ) → Handles net s.vault (confirm_delete w name s)
  unfolding confirm_delete
  Handles-confirm_delete name =
      Handles-mutate w net (record s { delete_confirm = none }) serving bound _ _ _
        (Logged-delete_file w name) (Counts-delete_file w name) (λ t. Goes-form t _ refl refl)
        (λ e t. Goes-form t _ refl refl)

  Handles-with_update_form :
      (o : Option (List ℕ)) → Handles net s.vault (goes_on, with_update_form o s)
  Handles-with_update_form none = stays refl refl
  Handles-with_update_form (some name) = stays refl refl

  Handles-with_delete_confirm :
      (o : Option (List ℕ)) → Handles net s.vault (goes_on, with_delete_confirm o s)
  Handles-with_delete_confirm none = stays refl refl
  Handles-with_delete_confirm (some name) = stays refl refl

  Handles-moved : (fs : List FileInfo) (i : ℕ) → Handles net s.vault (goes_on, moved fs i s)
  Handles-moved [] i = stays refl refl
  Handles-moved (f ∷ fs) i = stays refl refl

  Goes-verify : Goes net s.vault 1 (record s { vault = (verify_integrity w s.vault).1 })
  Goes-verify = record {
    after = net;
    kept = serving;
    steps = then_step here (
        Step-Logged (verify_integrity w) s.vault net.journal
          (Logged-Quiet (Quiet-verify_integrity w))
          (omega (arith, (Steady-verify_integrity w).seq s.vault)));
    near = omega (arith, (Steady-verify_integrity w).seq s.vault);
  }

  Handles-with_integrity :
      (o : Outcome Unit) (t : UnlockedState)
      → Goes net s.vault 1 t
      → Handles net s.vault (with_integrity o t)
  Handles-with_integrity (done _) t g = record { goes = Goes-form t _ refl refl g }
  Handles-with_integrity (failed e) t g = record { goes = Goes-form t _ refl refl g }
  Handles-with_integrity loops t g = record { goes = Goes-form t _ refl refl g }

  Handles-add_form_key :
      (system : System) (key : KeyCode) (form : AddFileForm)
      → Handles net s.vault (add_form_key w system key form s)
  unfolding add_form_key submit_add
  Handles-add_form_key system esc form = stays refl refl
  Handles-add_form_key system tab form = stays refl refl
  Handles-add_form_key system down form = stays refl refl
  Handles-add_form_key system up form = stays refl refl
  Handles-add_form_key system back_tab form = stays refl refl
  Handles-add_form_key system other form = stays refl refl
  Handles-add_form_key system backspace form = stays refl refl
  Handles-add_form_key system (char c) form = stays refl refl
  Handles-add_form_key system enter form =
      Handles-if form.focus_dest
        (Handles-if (is_empty (trim form.source_path) || is_empty (trim form.dest_name))
          (stays refl refl) (Handles-add_read w net s serving bound form _))
        (stays refl refl)

  Handles-update_form_key :
      (system : System) (key : KeyCode) (form : UpdateFileForm)
      → Handles net s.vault (update_form_key w system key form s)
  unfolding update_form_key submit_update
  Handles-update_form_key system esc form = stays refl refl
  Handles-update_form_key system tab form = stays refl refl
  Handles-update_form_key system down form = stays refl refl
  Handles-update_form_key system up form = stays refl refl
  Handles-update_form_key system back_tab form = stays refl refl
  Handles-update_form_key system other form = stays refl refl
  Handles-update_form_key system backspace form = stays refl refl
  Handles-update_form_key system (char c) form = stays refl refl
  Handles-update_form_key system enter form =
      Handles-update_target w net s serving bound system form _

  Handles-delete_key :
      (key : KeyCode) (name : List ℕ) → Handles net s.vault (delete_key w key name s)
  unfolding delete_key
  Handles-delete_key key name =
      Handles-if (is_yes key) (Handles-confirm_delete name)
        (Handles-if (is_no key) (stays refl refl) (stays refl refl))

  Handles-char_key : (c : ℕ) → Handles net s.vault (char_key w c s)
  unfolding char_key start_add start_update request_delete verify
  Handles-char_key c = Handles-if (c == b'q') (stays refl refl) (
      Handles-if (c == b'a') (stays refl refl) (
        Handles-if (c == b'u') (Handles-with_update_form _) (
          Handles-if (c == b'd') (Handles-with_delete_confirm _)
            (Handles-if (c == b'v') (Handles-with_integrity _ _ Goes-verify) (stays refl refl)))))

  Handles-browse_key : (key : KeyCode) → Handles net s.vault (browse_key w key s)
  unfolding browse_key move_up move_down
  Handles-browse_key esc = stays refl refl
  Handles-browse_key up = Handles-moved s.files _
  Handles-browse_key down = Handles-moved s.files _
  Handles-browse_key (char c) = Handles-char_key c
  Handles-browse_key enter = stays refl refl
  Handles-browse_key backspace = stays refl refl
  Handles-browse_key tab = stays refl refl
  Handles-browse_key back_tab = stays refl refl
  Handles-browse_key other = stays refl refl

  Handles-dispatch :
      (system : System) (key : KeyCode) (add : Option AddFileForm) (update : Option UpdateFileForm)
      (delete : Option (List ℕ))
      → Handles net s.vault (dispatch w system key add update delete s)
  unfolding dispatch
  Handles-dispatch system key (some form) update delete = Handles-add_form_key system key form
  Handles-dispatch system key none (some form) delete = Handles-update_form_key system key form
  Handles-dispatch system key none none (some name) = Handles-delete_key key name
  Handles-dispatch system key none none none = Handles-browse_key key

module _ (w : Platform) where
  Goes-press :
      (keys : List (System × KeyCode)) (net : NetworkSession) (s : UnlockedState)
      → s.network ≡ some net
      → seq_of s.vault + length keys < 2 ^ 64
      → Goes net s.vault (length keys) (press w keys s)
  unfolding press handle_key
  Goes-press [] net s serving bound = record {
    after = net;
    kept = serving;
    steps = here;
    near = omega arith;
  }
  Goes-press ((system, key) ∷ keys) net s serving bound =
      let g : Goes net s.vault 1 (handle_key w system key s).1 =
        (Handles-dispatch w net (record s { session = record_activity system.now s.session })
          serving (omega (arith, bound)) system key s.add_form s.update_form
          s.delete_confirm).goes in
      let more : Goes g.after (handle_key w system key s).1.vault (length keys)
          (press w keys (handle_key w system key s).1) =
        Goes-press keys g.after (handle_key w system key s).1 g.kept
          (omega (arith, bound, g.near)) in
      record {
        after = more.after;
        kept = more.kept;
        steps = Steps-append g.steps more.steps;
        near = omega (arith, g.near, more.near);
      }

  -- A vault that is served while keys are pressed in its browser, its log empty and its chain's number
  -- less than `2 ^ 64` minus the number of keys: whatever the keys do, what the session's journal then
  -- gives for the number that the chain had at first, followed by what the log then holds, makes the
  -- file that the vault had at first the file that it has now.
  pub ranges_since-press :
      (keys : List (System × KeyCode)) (net later : NetworkSession) (s : UnlockedState)
      (rs : List Range)
      → s.network ≡ some net
      → InUse s.vault net.journal
      → s.vault.change_log ≡ []
      → seq_of s.vault + length keys < 2 ^ 64
      → (press w keys s).network ≡ some later
      → ranges_since later.journal (seq_of s.vault) ≡ some rs
      → replay (rs ++ (press w keys s).vault.change_log) s.vault.file ≡ (press w keys s).vault.file
  ranges_since-press keys net later s rs serving in_use empty bound ended given =
      let g : Goes net s.vault (length keys) (press w keys s) =
        Goes-press keys net s serving bound in
      replay-ranges_since-Steps rs in_use empty g.steps (rw (some_inv (sym g.kept ∙ ended)) given)
    where
      some_inv : {a b : NetworkSession} → some a ≡ some b → a ≡ b
      some_inv e = cc
