-- ===== src/Tests/Terminal.antt =====
-- The terminal interface, invite codes and paths at concrete inputs.
use re_vault.Prelude.{
  ℕ, ◌-◌, ◌*◌, ◌<◌, ◌≤◌, ◌≡◌, refl, false, some, none, List, [], ◌∷◌, length, ascii, IsByte,
  All-replicate, All-append, if◌then◌else◌, arith,
}
use re_vault.Error.{ok}
use re_vault.Identity.{peer_id, peer_to_bytes}
use re_vault.Session.{with_clock}
use re_vault.Vault.Files.{FileInfo, delete_file}
use re_vault.Utf8.{is_utf8, follow}
use re_vault.Vault.ChainCount.Rules.{seq_of}
use re_vault.Net.Journal.{PatchJournal, new, record_patch, ranges_since, trim}
use re_vault.Net.Journal.Live.{InUse}
use re_vault.Net.Invite.{Addresses, Printable, InviteCode, encode, decode}
use re_vault.Net.Invite.RoundTrip.{invite-decode-encode}
use re_vault.Tui.Key.{KeyCode, char, down, System}
use re_vault.Tui.Bridge.{NetworkSession}
use re_vault.Tui.Unlocked.{UnlockedState, selected_name}
use re_vault.Tui.Unlocked.Submit as Submit
use re_vault.Tui.Unlocked.Keys.{handle_key, is_yes}
use re_vault.Tui.Unlocked.Selection.{press, selected-press}
use re_vault.Tui.Unlocked.Deletion.{file_of, file-delete}
use re_vault.Tui.Poll.{submit_grant, submit_revoke}
use re_vault.Tui.Vaults.{Floats, browsing, unlocked}
use re_vault.Tui.Vaults.Paths.{unique_vault_path, exists}
use re_vault.Tui.Vaults.Paths.Unique.{unique_vault_path-ends}
use re_vault.Tui.Network.{default_widget}
use re_vault.Tui.Network.Journal.{Unrecorded, ranges_since-submit}
use re_vault.Tui.Tab.{vaults}
use re_vault.Tui.App.{App, tick}
use re_vault.Tui.App.Locking.{ticks, mode-ticks}
use re_vault.Tests.Peers.{change}
use re_vault.Tests.Serving.{hosting, no_text}
use re_vault.Tests.Toy.{zeros, toy, platform, device}

-- A single address, printed as a letter.
abbrev addresses : Addresses
addresses = record { Address = Unit {0}; print = λ a. 120 ∷ []; parse = λ s. some tt }

addresses-Printable : Printable addresses
unfolding is_utf8 follow
addresses-Printable = record {
  parse_print = λ a. refl;
  print_bytes = λ a. (omega arith, tt);
  print_utf8 = λ a. refl;
}

abbrev invite : InviteCode addresses
invite = record { peer_id = peer_id toy device; address = some tt }

invite-decode-encode_example : decode addresses (encode addresses invite) ≡ ok invite
unfolding peer_id peer_to_bytes
invite-decode-encode_example = invite-decode-encode addresses addresses-Printable invite refl refl (
    All-append IsByte (zeros 32) (zeros 32) (All-replicate IsByte 32 0 (omega arith))
      (All-replicate IsByte 32 0 (omega arith)))

unique_vault_path-ends_example :
    (p : List ℕ) × (unique_vault_path (ascii "d/vault.rvlt" ∷ []) (ascii "d") [] ≡ some p)
    × (exists (ascii "d/vault.rvlt" ∷ []) p ≡ false)
unique_vault_path-ends_example = unique_vault_path-ends (ascii "d/vault.rvlt" ∷ []) (ascii "d") []

abbrev at : ℕ → System
at now = record { now = now; read = λ path. some (1 ∷ []); dir = []; drawn = 0 }

abbrev pressed : List (System × KeyCode)
pressed = (at 1, down) ∷ (at 2, char b'd') ∷ (at 3, char b'y') ∷ []

selected-press_example :
    (press platform pressed (Submit.new platform 0 hosting [] [] [])).selected
    ≤ length (press platform pressed (Submit.new platform 0 hosting [] [] [])).files - 1
selected-press_example = selected-press platform 0 hosting [] [] [] pressed

abbrev held : FileInfo
held = record { name = 97 ∷ []; size = 0; created_at = 0; modified_at = 0 }

abbrev journal : PatchJournal
journal = record_patch (new 4) 0 change

abbrev session : NetworkSession
session = record { bridge = record { requests = []; events = [] }; journal = journal }

abbrev open_state : UnlockedState
open_state = record {
  vault = hosting;
  path = [];
  name = [];
  files = held ∷ [];
  selected = 0;
  session = with_clock 0;
  message = none;
  add_form = none;
  update_form = none;
  delete_confirm = none;
  network = some session;
  recipients = [];
  local_identity_bytes = [];
}

picked : selected_name open_state ≡ some (97 ∷ [])
unfolding selected_name
picked = refl

file-delete_example :
    file_of
      (handle_key platform
        (at 2)
        (char b'y')
        (handle_key platform (at 1) (char b'd') open_state).1).1
    ≡ (if is_yes (char b'y')
        then (delete_file platform (97 ∷ []) hosting).1.file
        else file_of open_state)
file-delete_example =
    file-delete platform (at 1) (at 2) (char b'y') open_state (97 ∷ []) refl refl refl picked

in_use : InUse hosting journal
unfolding record_patch new trim
in_use = record { increasing = (omega arith, omega arith); keeps = omega arith }

one_entry : 0 < length journal.entries
unfolding record_patch new trim
one_entry = omega arith

ranges_since-submit_example :
    Unrecorded open_state (submit_grant platform addresses (encode addresses invite) open_state)
    × Unrecorded open_state (submit_revoke platform (peer_id toy device) [] open_state)
    × (ranges_since journal (seq_of hosting) ≡ some [])
ranges_since-submit_example =
    ranges_since-submit platform addresses (encode addresses invite) [] (peer_id toy device)
      open_state session refl in_use one_entry (omega arith)

abbrev floats : Floats
floats = record {
  Float = ℕ;
  parse = λ s. some 1;
  le_zero = λ n. false;
  times = λ n m. n * m;
  lower = λ s. s;
}

abbrev app : App
app = record {
  selected_tab = vaults;
  vaults_tab = record {
    vaults_dir = [];
    listing = [];
    selected = 0;
    mode = unlocked (record open_state { session = with_clock 0 });
    identity = device;
  };
  app_settings = record { vaults_dir = [] };
  settings_ui = record { editing = false; buffer = [] };
  network_ui = default_widget;
}

mode-ticks_example :
    ((t : UnlockedState) × ((ticks platform floats addresses no_text
          (at 1000000000 ∷ [])
          app).vaults_tab.mode
        ≡ unlocked t))
    × ((tick platform floats addresses no_text
          (at 30000000000)
          (ticks platform floats addresses no_text (at 1000000000 ∷ []) app)).1.vaults_tab.mode
        ≡ browsing)
unfolding with_clock
mode-ticks_example =
    mode-ticks platform floats addresses no_text (at 1000000000 ∷ []) (at 30000000000) app
      open_state refl refl (omega arith, tt) (omega arith)
