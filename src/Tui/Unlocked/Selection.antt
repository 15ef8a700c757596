-- ===== src/Tui/Unlocked/Selection.antt =====
-- tui/widgets/vaults/unlocked.rs: the selection stays on the list.
use re_vault.Prelude.{
  ℕ, ◌-◌, ◌≤◌, Bool, true, false, ◌||◌, ◌==◌, List, [], ◌∷◌, Option, none, some, length,
  if◌then◌else◌, arith,
}
use re_vault.Error.{VaultError}
use re_vault.Vault.State.{Platform, Vault, Outcome, done, failed, loops, M}
use re_vault.Vault.Files.{FileInfo}
use re_vault.Vault.Peers.{RecipientInfo}
use re_vault.Vault.Lifecycle.{chain_state}
use re_vault.Session.{record_activity}
use re_vault.Text.{trim, is_empty}
use re_vault.Tui.Key.{KeyCode, char, enter, esc, backspace, tab, back_tab, up, down, other, System}
use re_vault.Tui.Bridge.{NetworkSession}
use re_vault.Tui.Unlocked.{
  UnlockedState, AddFileForm, UpdateFileForm, Flow, moved, move_up, move_down, start_add,
  start_update, request_delete, with_update_form, with_delete_confirm,
}
use re_vault.Tui.Unlocked.Submit.{
  with_recipients, with_files, recorded, record_patch_if_serving, refresh_files, refresh_recipients,
  new, settle, mutate, add_read, submit_add, update_read, update_target, submit_update,
  confirm_delete, with_integrity, verify,
}
use re_vault.Tui.Unlocked.Keys.{
  add_form_key, update_form_key, delete_key, char_key, browse_key, dispatch, handle_key, is_yes,
  is_no,
}

-- The selection is the place of a file, or 0 where there is none.
abbrev pub InRange : UnlockedState → Type 0
InRange s = s.selected ≤ length s.files - 1

-- The same of what a handler leaves.
record Ranged (r : Flow × UnlockedState) : Type 0 where
  holds : InRange r.1

Ranged-if :
    (b : Bool) {r t : Flow × UnlockedState} → Ranged r → Ranged t → Ranged (if b then r else t)
Ranged-if true m n = m
Ranged-if false m n = n

InRange-with_files :
    (o : Outcome (List FileInfo)) (s : UnlockedState) → InRange s → InRange (with_files o s)
InRange-with_files (done files) s h = ground arith
InRange-with_files (failed e) s h = h
InRange-with_files loops s h = h

InRange-recorded :
    (n : ℕ) (o : Option NetworkSession) (s : UnlockedState) → InRange s → InRange (recorded n o s)
InRange-recorded n none s h = h
InRange-recorded n (some net) s h = h

InRange-moved :
    (fs : List FileInfo) (i : ℕ) (s : UnlockedState) → InRange s → InRange (moved fs i s)
InRange-moved [] i s h = h
InRange-moved (f ∷ fs) i s h = ground arith

InRange-with_update_form :
    (o : Option (List ℕ)) (s : UnlockedState) → InRange s → InRange (with_update_form o s)
InRange-with_update_form none s h = h
InRange-with_update_form (some name) s h = h

InRange-with_delete_confirm :
    (o : Option (List ℕ)) (s : UnlockedState) → InRange s → InRange (with_delete_confirm o s)
InRange-with_delete_confirm none s h = h
InRange-with_delete_confirm (some name) s h = h

Ranged-with_integrity :
    (o : Outcome Unit) (s : UnlockedState) → InRange s → Ranged (with_integrity o s)
Ranged-with_integrity (done _) s h = record { holds = h }
Ranged-with_integrity (failed e) s h = record { holds = h }
Ranged-with_integrity loops s h = record { holds = h }

InRange-record_patch_if_serving :
    (n : ℕ) (s : UnlockedState) → InRange s → InRange (record_patch_if_serving n s)
unfolding record_patch_if_serving
InRange-record_patch_if_serving n s h = InRange-recorded n s.network s h

module _ (w : Platform) where
  InRange-refresh_files : (s : UnlockedState) → InRange s → InRange (refresh_files w s)
  unfolding refresh_files
  InRange-refresh_files s h = InRange-with_files _ _ h

  -- A mutation's arms keep the selection, if the form's arms do.
  Ranged-mutate :
      (m : M Unit) (close : UnlockedState → UnlockedState)
      (fail : VaultError → UnlockedState → UnlockedState) (s : UnlockedState)
      → ((t : UnlockedState) → InRange t → InRange (close t))
      → ((e : VaultError) (t : UnlockedState) → InRange t → InRange (fail e t))
      → InRange s
      → Ranged (mutate w m close fail s)
  unfolding mutate settle
  Ranged-mutate m close fail s hc hf h = by_outcome (m s.vault).0
    where
      by_outcome :
          (o : Outcome Unit)
          → Ranged
              (settle w (chain_state s.vault).0 o close fail (record s { vault = (m s.vault).1 }))
      by_outcome (done _) = record {
        holds =
            let t : UnlockedState = record s { vault = (m s.vault).1 } in
            let u : UnlockedState = record_patch_if_serving (chain_state s.vault).0 t in
            hc (refresh_files w u) (
              InRange-refresh_files u
                (InRange-record_patch_if_serving (chain_state s.vault).0 t h));
      }
      by_outcome (failed e) = record { holds = hf e _ h }
      by_outcome loops = record { holds = h }

  Ranged-add_read :
      (form : AddFileForm) (o : Option (List ℕ)) (s : UnlockedState)
      → InRange s
      → Ranged (add_read w form o s)
  unfolding add_read
  Ranged-add_read form none s h = record { holds = h }
  Ranged-add_read form (some contents) s h = Ranged-mutate _ _ _ s (λ t k. k) (λ e t k. k) h

  Ranged-update_read :
      (form : UpdateFileForm) (target : List ℕ) (o : Option (List ℕ)) (s : UnlockedState)
      → InRange s
      → Ranged (update_read w form target o s)
  unfolding update_read
  Ranged-update_read form target none s h = record { holds = h }
  Ranged-update_read form target (some contents) s h =
      Ranged-mutate _ _ _ s (λ t k. k) (λ e t k. k) h

  Ranged-update_target :
      (system : System) (form : UpdateFileForm) (o : Option (List ℕ)) (s : UnlockedState)
      → InRange s
      → Ranged (update_target w system form o s)
  unfolding update_target
  Ranged-update_target system form none s h = record { holds = h }
  Ranged-update_target system form (some target) s h =
      Ranged-if (is_empty (trim form.source_path)) (record { holds = h })
        (Ranged-update_read form target _ s h)

  module _ (system : System) (s : UnlockedState) (h : InRange s) where
    Ranged-add_form_key :
        (key : KeyCode) (form : AddFileForm) → Ranged (add_form_key w system key form s)
    unfolding add_form_key submit_add
    Ranged-add_form_key esc form = record { holds = h }
    Ranged-add_form_key tab form = record { holds = h }
    Ranged-add_form_key down form = record { holds = h }
    Ranged-add_form_key up form = record { holds = h }
    Ranged-add_form_key back_tab form = record { holds = h }
    Ranged-add_form_key other form = record { holds = h }
    Ranged-add_form_key backspace form = record { holds = h }
    Ranged-add_form_key (char c) form = record { holds = h }
    Ranged-add_form_key enter form =
        Ranged-if form.focus_dest
          (Ranged-if (is_empty (trim form.source_path) || is_empty (trim form.dest_name))
            (record { holds = h }) (Ranged-add_read form _ s h))
          (record { holds = h })

    Ranged-update_form_key :
        (key : KeyCode) (form : UpdateFileForm) → Ranged (update_form_key w system key form s)
    unfolding update_form_key submit_update
    Ranged-update_form_key esc form = record { holds = h }
    Ranged-update_form_key tab form = record { holds = h }
    Ranged-update_form_key down form = record { holds = h }
    Ranged-update_form_key up form = record { holds = h }
    Ranged-update_form_key back_tab form = record { holds = h }
    Ranged-update_form_key other form = record { holds = h }
    Ranged-update_form_key backspace form = record { holds = h }
    Ranged-update_form_key (char c) form = record { holds = h }
    Ranged-update_form_key enter form = Ranged-update_target system form _ s h

    Ranged-delete_key : (key : KeyCode) (name : List ℕ) → Ranged (delete_key w key name s)
    unfolding delete_key confirm_delete
    Ranged-delete_key key name =
        Ranged-if (is_yes key)
          (Ranged-mutate _ _ _ (record s { delete_confirm = none }) (λ t k. k) (λ e t k. k) h)
          (Ranged-if (is_no key) (record { holds = h }) (record { holds = h }))

    Ranged-char_key : (c : ℕ) → Ranged (char_key w c s)
    unfolding char_key start_add start_update request_delete verify
    Ranged-char_key c =
        Ranged-if (c == b'q') (record { holds = h })
          (Ranged-if (c == b'a') (record { holds = h })
            (Ranged-if (c == b'u') (record { holds = InRange-with_update_form _ s h })
              (Ranged-if (c == b'd') (record { holds = InRange-with_delete_confirm _ s h })
                (Ranged-if (c == b'v') (Ranged-with_integrity _ _ h) (record { holds = h })))))

    Ranged-browse_key : (key : KeyCode) → Ranged (browse_key w key s)
    unfolding browse_key move_up move_down
    Ranged-browse_key esc = record { holds = h }
    Ranged-browse_key up = record { holds = InRange-moved s.files _ s h }
    Ranged-browse_key down = record { holds = InRange-moved s.files _ s h }
    Ranged-browse_key (char c) = Ranged-char_key c
    Ranged-browse_key enter = record { holds = h }
    Ranged-browse_key backspace = record { holds = h }
    Ranged-browse_key tab = record { holds = h }
    Ranged-browse_key back_tab = record { holds = h }
    Ranged-browse_key other = record { holds = h }

    Ranged-dispatch :
        (key : KeyCode) (add : Option AddFileForm) (update : Option UpdateFileForm)
        (delete : Option (List ℕ))
        → Ranged (dispatch w system key add update delete s)
    unfolding dispatch
    Ranged-dispatch key (some form) update delete = Ranged-add_form_key key form
    Ranged-dispatch key none (some form) delete = Ranged-update_form_key key form
    Ranged-dispatch key none none (some name) = Ranged-delete_key key name
    Ranged-dispatch key none none none = Ranged-browse_key key

  -- The keys pressed one after the other.
  unfoldable pub press : List (System × KeyCode) → UnlockedState → UnlockedState
  unfolding handle_key
  press [] s = s
  press ((system, key) ∷ keys) s = press keys (handle_key w system key s).1

  InRange-press :
      (keys : List (System × KeyCode)) (s : UnlockedState) → InRange s → InRange (press keys s)
  unfolding press
  InRange-press [] s h = h
  InRange-press ((system, key) ∷ keys) s h =
      InRange-press keys (handle_key w system key s).1
        (Ranged-dispatch system (record s { session = record_activity system.now s.session }) h key
          s.add_form s.update_form s.delete_confirm).holds

  InRange-new :
      (now : ℕ) (v : Vault) (path name bytes : List ℕ) → InRange (new w now v path name bytes)
  unfolding new refresh_recipients
  InRange-new now v path name bytes =
      with_recipients_range _ _ (InRange-refresh_files _ (omega arith))
    where
      with_recipients_range :
          (o : Outcome (List RecipientInfo)) (s : UnlockedState)
          → InRange s
          → InRange (with_recipients o s)
      with_recipients_range (done rs) s h = h
      with_recipients_range (failed e) s h = h
      with_recipients_range loops s h = h

  -- From the unlocking of a vault on, whatever keys are pressed and whatever the vault does, the
  -- selection is the place of a listed file, or 0 when no file is listed.
  pub selected-press :
      (now : ℕ) (v : Vault) (path name bytes : List ℕ) (keys : List (System × KeyCode))
      → (press keys (new w now v path name bytes)).selected
        ≤ length (press keys (new w now v path name bytes)).files - 1
  selected-press now v path name bytes keys =
      InRange-press keys (new w now v path name bytes) (InRange-new now v path name bytes)
