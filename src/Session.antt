-- ===== src/Session.antt =====
-- core/session.rs: the inactivity timer of an unlocked vault. The clock's reading is an argument, in
-- nanoseconds; `duration_since` of an earlier instant is 0, as in the standard library.
use re_vault.Prelude.{ℕ, ◌-◌, ◌*◌, Bool, leb}

abbrev pub nanos_per_sec : ℕ
nanos_per_sec = 1000000000

abbrev pub default_timeout : ℕ
default_timeout = 30 * nanos_per_sec

pub record Session : Type 0 where
  pub last_activity : ℕ
  pub timeout : ℕ

unfoldable pub with_clock_and_timeout : ℕ → ℕ → Session
with_clock_and_timeout now timeout = record { last_activity = now; timeout = timeout }

unfoldable pub with_clock : ℕ → Session
with_clock now = record { last_activity = now; timeout = default_timeout }

unfoldable pub record_activity : ℕ → Session → Session
record_activity now s = record s { last_activity = now }

unfoldable pub idle_for : ℕ → Session → ℕ
idle_for now s = now - s.last_activity

unfoldable pub is_expired : ℕ → Session → Bool
is_expired now s = leb s.timeout (now - s.last_activity)
