-- ===== src/Net/Journal/Live.antt =====
-- net/journal.rs: the journal beside a vault that goes on changing: what it gives a peer, and what the
-- change log still holds, against the vault's file.
use re_vault.Prelude.{
  ℕ, ◌+◌, ◌^◌, ◌≤◌, ◌<◌, ◌≡◌, refl, sym, ap, ap₂, ◌∙◌, false, List, [], ◌∷◌, ◌++◌, some, length,
  ◌==◌, append-nil, append_assoc, Bool-cases, inl, inr, arith,
}
use re_vault.Vault.State.{Vault, Range, replay, M, Outcome, done, failed, loops}
use re_vault.Vault.ChangeLog.Rules.{replay-append, Logged}
use re_vault.Vault.ChainCount.Rules.{seq_of, Counts, counted}
use re_vault.Net.Journal.{PatchJournal, trim, record_patch, covered, ranges_since}
use re_vault.Net.Journal.Entries.{
  Increasing, Increasing-raise, Increasing-snoc, Increasing-trim, covered-trim, covered-snoc,
  covered-older, covered-now,
}

-- One event at a vault and its journal. Either the journal is left alone and the log goes on, or the
-- log is recorded under the number that the chain had, and emptied.
pub data Step : Vault → PatchJournal → Vault → PatchJournal → Type 0 where
  pending :
      {v u : Vault} {j : PatchJournal} (rs : List Range)
      → u.change_log ≡ v.change_log ++ rs
      → u.file ≡ replay rs v.file
      → seq_of v ≤ seq_of u
      → Step v j u j
  recorded :
      {v u : Vault} {j : PatchJournal} (rs : List Range)
      → u.change_log ≡ []
      → u.file ≡ replay rs v.file
      → seq_of v < seq_of u
      → Step v j u (record_patch j (seq_of v) (v.change_log ++ rs))

-- A journal in use beside a vault.
pub record InUse (v : Vault) (j : PatchJournal) : Type 0 where
  pub increasing : Increasing j.entries 0 (seq_of v)
  pub keeps : 0 < j.capacity

-- What is known of a vault and its journal since the chain stood at `p` and the file was `base`.
pub record Tracks (p : ℕ) (base : List ℕ) (v : Vault) (j : PatchJournal) : Type 0 where
  pub in_use : InUse v j
  pub past : p ≤ seq_of v
  pub unmoved : seq_of v ≡ p → replay v.change_log base ≡ v.file
  pub given :
      (rs : List Range) → covered p j.entries ≡ some rs → replay (rs ++ v.change_log) base ≡ v.file

-- The same log, gone on.
gone_on :
    (before rs : List Range) (base file : List ℕ) (v u : Vault)
    → u.change_log ≡ v.change_log ++ rs
    → u.file ≡ replay rs v.file
    → replay (before ++ v.change_log) base ≡ v.file
    → replay (before ++ u.change_log) base ≡ u.file
gone_on before rs base file v u log same e =
    ap (λ l. replay (before ++ l) base) log
    ∙ ap (λ l. replay l base) (sym (append_assoc before v.change_log rs))
    ∙ replay-append (before ++ v.change_log) rs base
    ∙ ap (replay rs) e
    ∙ sym same

-- The log, recorded and emptied.
taken :
    (before given rs : List Range) (base : List ℕ) (v u : Vault)
    → given ≡ before ++ (v.change_log ++ rs)
    → u.change_log ≡ []
    → u.file ≡ replay rs v.file
    → replay (before ++ v.change_log) base ≡ v.file
    → replay (given ++ u.change_log) base ≡ u.file
taken before given rs base v u e empty same h =
    ap (λ l. replay (given ++ l) base) empty
    ∙ ap (λ l. replay l base) (append-nil given ∙ e ∙ sym (append_assoc before v.change_log rs))
    ∙ replay-append (before ++ v.change_log) rs base
    ∙ ap (replay rs) h
    ∙ sym same

capacity-record_patch :
    (j : PatchJournal) (n : ℕ) (rs : List Range) → (record_patch j n rs).capacity ≡ j.capacity
unfolding record_patch
capacity-record_patch j n rs = elim (Bool-cases (j.capacity == 0)) [
  | inl none_kept ↦ rw (none_kept) refl
  | inr kept ↦ rw (kept) refl
]

entries-record_patch :
    (j : PatchJournal) (n : ℕ) (rs : List Range)
    → 0 < j.capacity
    → (record_patch j n rs).entries ≡ trim j.capacity (j.entries ++ ((n, rs) ∷ []))
unfolding record_patch
entries-record_patch j n rs h =
    let kept : (j.capacity == 0) ≡ false = ground (arith, h) in rw (kept) refl

pub InUse-Step : {v u : Vault} {j k : PatchJournal} → Step v j u k → InUse v j → InUse u k
InUse-Step (pending {v} {u} {j} rs log file le) i = record {
  increasing = Increasing-raise j.entries 0 (seq_of v) (seq_of u) le i.increasing;
  keeps = i.keeps;
}
InUse-Step (recorded {v} {u} {j} rs log file lt) i = record {
  increasing = rw (entries-record_patch j (seq_of v) (v.change_log ++ rs) i.keeps) (
      Increasing-trim j.capacity _ 0 (seq_of u)
        (Increasing-snoc j.entries 0 (seq_of v) (seq_of u) _ lt i.increasing));
  keeps = rw (capacity-record_patch j (seq_of v) (v.change_log ++ rs)) i.keeps;
}

pub Tracks-start :
    (v : Vault) (j : PatchJournal) → v.change_log ≡ [] → InUse v j → Tracks (seq_of v) v.file v j
unfolding replay
Tracks-start v j empty i = record {
  in_use = i;
  past = omega arith;
  unmoved = λ e. ap (λ l. replay l v.file) empty;
  given = λ rs e.
      let none_due : rs ≡ [] =
        covered-older (seq_of v) j.entries 0 (seq_of v) rs (omega arith) i.increasing e in
      ap₂ (λ r l. replay (r ++ l) v.file) none_due empty;
}

pub Tracks-Step :
    {p : ℕ} {base : List ℕ} {v u : Vault} {j k : PatchJournal}
    → Step v j u k
    → Tracks p base v j
    → Tracks p base u k
Tracks-Step {p} {base} (pending {v} {u} {j} rs log file le) t = record {
  in_use = InUse-Step (pending rs log file le) t.in_use;
  past = omega (arith, le, t.past);
  unmoved = λ e.
      gone_on [] rs base v.file v u log file
        (t.unmoved (let q : seq_of v ≡ p = omega (arith, le, t.past, e) in q));
  given = λ given e. gone_on given rs base v.file v u log file (t.given given e);
}
Tracks-Step {p} {base} (recorded {v} {u} {j} rs log file lt) t = record {
  in_use = InUse-Step (recorded rs log file lt) t.in_use;
  past = omega (arith, lt, t.past);
  unmoved = λ e. absurd (omega (arith, lt, t.past, e));
  given = λ given e.
      elim (covered-snoc p (seq_of v) j.entries (v.change_log ++ rs) given t.past (
        covered-trim p j.capacity _ 0 (seq_of u) given
          (Increasing-snoc j.entries 0 (seq_of v) (seq_of u) _ lt t.in_use.increasing)
          (rw (entries-record_patch j (seq_of v) (v.change_log ++ rs) t.in_use.keeps) at e))) [
            | inl (r, had, whole) ↦ taken r given rs base v u whole log file (t.given r had)
            | inr (now, whole) ↦ taken [] given rs base v u whole log file (t.unmoved now)
          ];
}

-- Any number of events, one after the other.
pub data Steps (v : Vault) (j : PatchJournal) : Vault → PatchJournal → Type 0 where
  here : Steps v j v j
  then_step : {u t : Vault} {k l : PatchJournal} → Steps v j u k → Step u k t l → Steps v j t l

pub InUse-Steps :
    {v : Vault} {j : PatchJournal} {u : Vault} {k : PatchJournal}
    → InUse v j
    → Steps v j u k
    → InUse u k
InUse-Steps i here = i
InUse-Steps i (then_step r s) = InUse-Step s (InUse-Steps i r)

Tracks-Steps :
    {p : ℕ} {base : List ℕ} {v : Vault} {j : PatchJournal} {u : Vault} {k : PatchJournal}
    → Tracks p base v j
    → Steps v j u k
    → Tracks p base u k
Tracks-Steps t here = t
Tracks-Steps t (then_step r s) = Tracks-Step s (Tracks-Steps t r)

-- A peer that has the file as it was at some point when the log was empty: what the journal gives it
-- later, with what the log then holds, makes that file the file at the later point.
pub replay-ranges_since-Steps :
    {v u : Vault} {j k : PatchJournal} (rs : List Range)
    → InUse v j
    → v.change_log ≡ []
    → Steps v j u k
    → ranges_since k (seq_of v) ≡ some rs
    → replay (rs ++ u.change_log) v.file ≡ u.file
unfolding ranges_since
replay-ranges_since-Steps {v} {u} {j} {k} rs i empty r e = elim (Bool-cases (seq_of v == 0)) [
  | inl fresh ↦ cc (rw (fresh) at e)
  | inr kept ↦ (Tracks-Steps (Tracks-start v j empty i) r).given rs (rw (kept) at e)
]

-- Events after events.
pub Steps-append :
    {v : Vault} {j : PatchJournal} {u : Vault} {k : PatchJournal} {t : Vault} {l : PatchJournal}
    → Steps v j u k
    → Steps u k t l
    → Steps v j t l
Steps-append r here = r
Steps-append r (then_step q s) = then_step (Steps-append r q) s

-- A logged action that may move the chain on, with the journal left alone.
pub Step-Logged :
    {A : Type 0} (m : M A) (v : Vault) (j : PatchJournal)
    → Logged m
    → seq_of v ≤ seq_of (m v).1
    → Step v j (m v).1 j
Step-Logged m v j l le = pending (l.ranges v) (l.log v) (l.file v) le

-- A mutation that succeeded, its patch recorded under the number that the chain had before it.
pub Step-recorded :
    (m : M Unit) (v : Vault) (j : PatchJournal)
    → Logged m
    → Counts m
    → seq_of v + 1 < 2 ^ 64
    → (m v).0 ≡ done tt
    → Step v j (record (m v).1 { change_log = [] }) (record_patch j (seq_of v) (m v).1.change_log)
Step-recorded m v j l c bound e = rw (l.log v) (
    recorded (l.ranges v) refl (l.file v)
      (omega (arith, c.seq v ∙ ap (λ o. counted o (seq_of v)) e, bound)))

-- Whatever came of the mutation, its patch is not recorded.
pub Step-unrecorded :
    (m : M Unit) (v : Vault) (j : PatchJournal)
    → Logged m
    → Counts m
    → seq_of v + 1 < 2 ^ 64
    → Step v j (m v).1 j
Step-unrecorded m v j l c bound = Step-Logged m v j l (counted_le (m v).0 (c.seq v))
  where
    counted_le :
        (o : Outcome Unit) → seq_of (m v).1 ≡ counted o (seq_of v) → seq_of v ≤ seq_of (m v).1
    counted_le (done x) e = omega (arith, e, bound)
    counted_le (failed x) e = omega (arith, e)
    counted_le loops e = omega (arith, e)

-- A peer at the vault's own number is given no ranges, by a journal that holds anything.
pub ranges_since-now :
    (v : Vault) (j : PatchJournal)
    → InUse v j
    → 0 < length j.entries
    → 0 < seq_of v
    → ranges_since j (seq_of v) ≡ some []
unfolding ranges_since
ranges_since-now v j i held begun =
    let going : (seq_of v == 0) ≡ false = ground (arith, begun) in
    rw (going) (covered-now (seq_of v) j.entries i.increasing held)
