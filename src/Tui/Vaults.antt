-- ===== src/Tui/Vaults.antt =====
-- tui/widgets/vaults/mod.rs: the Vaults tab, from the list of vaults to one that is unlocked.
pub mod Paths
pub mod Keys
use re_vault.Prelude.{
  ℕ, ◌+◌, ◌-◌, ◌*◌, ◌^◌, Bool, true, false, ◌&&◌, ◌||◌, List, [], ◌∷◌, ◌++◌, Option, none, some,
  ltb, ◌==◌, if◌then◌else◌, bytes_eq, ascii,
}
use re_vault.Error.{Result, ok, err}
use re_vault.Identity.{Identity}
use re_vault.Text.{Text, trim, is_empty}
use re_vault.Vault.State.{Vault}
use re_vault.Vault.Lifecycle.{VaultSummary}
use re_vault.Tui.Key.{DirEntry}
use re_vault.Tui.Create as Create
use re_vault.Tui.Create.{CreateForm, CreateError}
use re_vault.Tui.Unlock as Unlock
use re_vault.Tui.Unlock.{UnlockForm}
use re_vault.Tui.Unlocked.{UnlockedState}
use re_vault.Tui.Unlocked.Submit

pub record VaultListing : Type 0 where
  pub path : List ℕ
  pub name : List ℕ
  pub description : List ℕ
  pub capacity_bytes : ℕ

-- `stuck` is no value of the code: the handler did not return.
pub data Mode : Type 0 where
  browsing : Mode
  creating : CreateForm → Mode
  unlocking : UnlockForm → List ℕ → List ℕ → Mode
  unlocked : UnlockedState → Mode
  stuck : Mode

pub record App : Type 0 where
  pub vaults_dir : List ℕ
  pub listing : List VaultListing
  pub selected : ℕ
  pub mode : Mode
  pub identity : Identity

-- `str`'s order, byte by byte: whether the first comes no later.
unfoldable pub comes_first : List ℕ → List ℕ → Bool
comes_first [] ys = true
comes_first (x ∷ xs) [] = false
comes_first (x ∷ xs) (y ∷ ys) = ltb x y || ((x == y) && comes_first xs ys)

-- `sort_by(|a, b| a.name.cmp(&b.name))`, which is stable
unfoldable pub insert_listing : VaultListing → List VaultListing → List VaultListing
insert_listing l [] = l ∷ []
insert_listing l (m ∷ ms) =
    let rest = insert_listing l ms in if comes_first l.name m.name then l ∷ m ∷ ms else m ∷ rest

unfoldable pub sort_by_name : List VaultListing → List VaultListing
sort_by_name [] = []
sort_by_name (l ∷ ls) = insert_listing l (sort_by_name ls)

abbrev pub is_rvlt : Option (List ℕ) → Bool
is_rvlt none = false
is_rvlt (some extension) = bytes_eq extension (ascii "rvlt")

abbrev pub listed : DirEntry → Result VaultSummary → List VaultListing → List VaultListing
listed entry (err e) out = out
listed entry (ok s) out =
    record {
      path = entry.path;
      name = s.name;
      description = s.description;
      capacity_bytes = s.capacity_bytes;
    }
    ∷ out

-- `App::intercepts_quit`
unfoldable pub intercepts_quit : App → Bool
intercepts_quit app = elim app.mode [ browsing ↦ false | _ ↦ true ]

abbrev pub is_set : {A : Type 0} → Option A → Bool
is_set none = false
is_set (some a) = true

-- `App::blocks_tab_switch`
unfoldable pub blocks_tab_switch : App → Bool
blocks_tab_switch app = elim app.mode [
  | browsing ↦ false
  | unlocked s ↦ is_set s.add_form || is_set s.update_form || is_set s.delete_confirm
  | _ ↦ true
]

-- The units of a capacity, in the order in which they are tried.
abbrev pub units : List (List ℕ × ℕ)
units =
    (ascii "tb", 1024 * 1024 * 1024 * 1024)
    ∷ (ascii "gb", 1024 * 1024 * 1024)
    ∷ (ascii "mb", 1024 * 1024)
    ∷ (ascii "kb", 1024)
    ∷ (ascii "b", 1)
    ∷ []

-- `str::strip_suffix`
unfoldable pub strip_suffix : List ℕ → Text → Option Text
strip_suffix suffix [] = if is_empty suffix then some [] else none
strip_suffix suffix (c ∷ s) =
    let rest = strip_suffix suffix s in
    if bytes_eq suffix (c ∷ s) then some [] else elim rest [ none ↦ none | some t ↦ some (c ∷ t) ]

unfoldable pub split_unit : List (List ℕ × ℕ) → Text → Text × ℕ
split_unit [] s = (s, 1)
split_unit ((suffix, multiplier) ∷ us) s = elim (strip_suffix suffix s) [
  | none ↦ split_unit us s
  | some n ↦ (n, multiplier)
]

-- What is used of the standard library's `f64` and of Unicode's lower case: `parse`, `<= 0.0`, the
-- product with an integer cut to a `u64`, and `to_lowercase`.
pub record Floats : Type 1 where
  pub Float : Type 0
  pub parse : Text → Option Float
  pub le_zero : Float → Bool
  pub times : Float → ℕ → ℕ
  pub lower : Text → Text

-- `Err` of a form as a sum.
pub data Checked (A : Type 0) : Type 0 where
  fine : A → Checked A
  wrong : CreateError → Checked A

module _ (F : Floats) where
  abbrev pub in_bytes : Option F.Float → ℕ → Checked ℕ
  in_bytes none multiplier = wrong Create.bad_capacity_number
  in_bytes (some number) multiplier =
      if F.le_zero number
      then wrong Create.capacity_not_positive
      else fine (F.times number multiplier)

  unfoldable pub parse_capacity : Text → Checked ℕ
  parse_capacity input =
      let s = trim input in
      let (number_part, multiplier) = split_unit units (F.lower s) in
      if is_empty s
      then wrong Create.capacity_required
      else in_bytes (F.parse (trim number_part)) multiplier

-- What `try_create` leaves: a new vault at a path, or the form's error.
pub data Creation : Type 0 where
  created : List ℕ → Vault → Creation
  refused : CreateError → Creation
  -- no value of the code: no path was found
  no_path : Creation
