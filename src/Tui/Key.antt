-- ===== src/Tui/Key.antt =====
-- The key presses that the widgets tell apart (`KeyCode`), and what a handler asks of the system.
use re_vault.Prelude.{ℕ, List, Option}

pub data KeyCode : Type 0 where
  char : ℕ → KeyCode
  enter esc backspace tab back_tab up down : KeyCode
  -- any other key
  other : KeyCode

-- A file of the vaults directory: its path, the extension of that, and its bytes.
pub record DirEntry : Type 0 where
  pub path : List ℕ
  pub extension : Option (List ℕ)
  pub contents : List ℕ

-- The system at the time of the event: the clock, `std::fs::read` of a path, the entries of the vaults
-- directory, and the number of the platform's values used so far by others than the open vault.
pub record System : Type 0 where
  pub now : ℕ
  pub read : List ℕ → Option (List ℕ)
  pub dir : List DirEntry
  pub drawn : ℕ
