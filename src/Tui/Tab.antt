-- ===== src/Tui/Tab.antt =====
-- tui/tab.rs: the tabs, in order.
use re_vault.Prelude.{ℕ}

pub data Tab : Type 0 where
  vaults network logs settings : Tab

unfoldable pub next : Tab → Tab
next vaults = network
next network = logs
next logs = settings
next settings = vaults

unfoldable pub index : Tab → ℕ
index vaults = 0
index network = 1
index logs = 2
index settings = 3
