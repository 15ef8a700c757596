-- ===== src/Tui/Settings.antt =====
-- tui/settings.rs and tui/widgets/settings.rs: the one setting, its file and the form for it. A path is
-- its text.
use re_vault.Prelude.{
  Bool, true, false, List, [], ◌∷◌, ◌++◌, Option, none, some, ◌==◌, if◌then◌else◌, ascii,
}
use re_vault.Text.{Text, push, pop, trim, is_empty}
use re_vault.Tui.Key.{KeyCode, char, enter, esc, backspace}

pub record AppSettings : Type 0 where
  pub vaults_dir : Text

-- `str::lines`: the lines of what is left, after the characters `held`; a `\r` before the end of a line
-- goes with it, and the end of the text ends a line only if it holds something.
abbrev pub without_cr : Text → Text
without_cr [] = []
without_cr (c ∷ []) = if c == 13 then [] else c ∷ []
without_cr (c ∷ d ∷ s) = c ∷ without_cr (d ∷ s)

lines_from : Text → Text → List Text
lines_from [] [] = []
lines_from (h ∷ held) [] = (h ∷ held) ∷ []
lines_from held (c ∷ s) = elim (c == 10) [
  | true ↦ without_cr held ∷ lines_from [] s
  | false ↦ lines_from (push held c) s
]

unfoldable pub lines : Text → List Text
unfolding lines_from push
lines s = lines_from [] s

-- `str::strip_prefix`
unfoldable pub strip_prefix : Text → Text → Option Text
strip_prefix [] s = some s
strip_prefix (p ∷ ps) [] = none
strip_prefix (p ∷ ps) (c ∷ s) = let rest = strip_prefix ps s in if p == c then rest else none

-- A line that sets the directory to something not blank.
abbrev pub set_by : Option Text → Text → Text
set_by none vaults_dir = vaults_dir
set_by (some value) vaults_dir = if is_empty (trim value) then vaults_dir else trim value

unfoldable pub read_lines : List Text → Text → Text
read_lines [] vaults_dir = vaults_dir
read_lines (line ∷ more) vaults_dir =
    read_lines more (set_by (strip_prefix (ascii "vaults_dir=") line) vaults_dir)

-- `AppSettings::load`, of the file's text if it could be read.
unfoldable pub load : Text → Option Text → AppSettings
load default_dir none = record { vaults_dir = default_dir }
load default_dir (some contents) = record { vaults_dir = read_lines (lines contents) default_dir }

-- What `save` writes.
unfoldable pub save : AppSettings → Text
save settings = ascii "vaults_dir=" ++ (settings.vaults_dir ++ (10 ∷ []))

pub record SettingsWidget : Type 0 where
  pub editing : Bool
  pub buffer : Text

unfoldable pub new : AppSettings → SettingsWidget
new settings = record { editing = false; buffer = settings.vaults_dir }

-- The widget, the settings, and what is written to the settings file, if anything.
pub record Saved : Type 0 where
  pub widget : SettingsWidget
  pub settings : AppSettings
  pub written : Option Text

abbrev unsaved : SettingsWidget → AppSettings → Saved
unsaved widget settings = record { widget = widget; settings = settings; written = none }

unfoldable pub save_entered : SettingsWidget → AppSettings → Saved
unfolding save
save_entered widget settings =
    let trimmed = trim widget.buffer in
    if is_empty trimmed then unsaved (record widget { editing = false }) settings else record {
      widget = record widget { editing = false };
      settings = record { vaults_dir = trimmed };
      written = some (save (record { vaults_dir = trimmed }));
    }

unfoldable pub editing_key : KeyCode → SettingsWidget → AppSettings → Saved
editing_key esc widget settings =
    unsaved (record { editing = false; buffer = settings.vaults_dir }) settings
editing_key enter widget settings = save_entered widget settings
editing_key backspace widget settings =
    unsaved (record widget { buffer = pop widget.buffer }) settings
editing_key (char c) widget settings =
    unsaved (record widget { buffer = push widget.buffer c }) settings
editing_key key widget settings = unsaved widget settings

unfoldable pub resting_key : KeyCode → SettingsWidget → AppSettings → Saved
resting_key enter widget settings = unsaved (record widget { editing = true }) settings
resting_key key widget settings = unsaved widget settings

unfoldable pub handle_key : KeyCode → SettingsWidget → AppSettings → Saved
handle_key key widget settings =
    if widget.editing then editing_key key widget settings else resting_key key widget settings
