-- ===== src/Net/Journal.antt =====
-- net/journal.rs: the bounded journal of recent patches.
pub mod CatchUp
pub mod Entries
pub mod Live
use re_vault.Prelude.{
  ℕ, ◌+◌, List, [], ◌∷◌, ◌++◌, Option, none, some, length, ltb, leb, ◌==◌, if◌then◌else◌,
}
use re_vault.Vault.State.{Range}

-- A patch, with the sequence number that the chain had before it.
abbrev pub Entry : Type 0
Entry = ℕ × List Range

pub record PatchJournal : Type 0 where
  pub entries : List Entry
  pub capacity : ℕ

unfoldable pub new : ℕ → PatchJournal
new capacity = record { entries = []; capacity = capacity }

-- `while self.entries.len() > self.capacity { self.entries.pop_front(); }`
unfoldable pub trim : ℕ → List Entry → List Entry
trim capacity [] = []
trim capacity (e ∷ es) =
    let rest = trim capacity es in if ltb capacity (length (e ∷ es)) then rest else e ∷ es

-- Named `record` in the source.
unfoldable pub record_patch : PatchJournal → ℕ → List Range → PatchJournal
record_patch j seq ranges =
    if j.capacity == 0
    then j
    else record j { entries = trim j.capacity (j.entries ++ ((seq, ranges) ∷ [])) }

-- `if *seq >= peer_next_seq { combined.extend(…) }`, over the entries in order
unfoldable pub combined : ℕ → List Entry → List Range
combined peer_next_seq [] = []
combined peer_next_seq ((seq, ranges) ∷ es) =
    let more = combined peer_next_seq es in if leb peer_next_seq seq then ranges ++ more else more

unfoldable pub covered : ℕ → List Entry → Option (List Range)
covered peer_next_seq [] = none
covered peer_next_seq ((oldest_seq, ranges) ∷ es) =
    if ltb peer_next_seq oldest_seq
    then none
    else some (combined peer_next_seq ((oldest_seq, ranges) ∷ es))

unfoldable pub ranges_since : PatchJournal → ℕ → Option (List Range)
ranges_since j peer_next_seq = if peer_next_seq == 0 then none else covered peer_next_seq j.entries
