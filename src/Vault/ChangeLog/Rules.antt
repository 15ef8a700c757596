-- ===== src/Vault/ChangeLog/Rules.antt =====
-- core/vault.rs: what it is for an action to log its writes, and the rules by which actions compose.
use re_vault.Prelude.{
  ℕ, ◌≡◌, refl, sym, ap, ◌∙◌, Bool, true, false, List, [], ◌∷◌, ◌++◌, append-nil, append_assoc,
  Option, none, some, if◌then◌else◌,
}
use re_vault.Error.{VaultError, Result, ok, err}
use re_vault.Allocator.{BlockAllocator}
use re_vault.Format.Header.{Header}
use re_vault.Vault.State.{
  Vault, Range, Outcome, done, failed, loops, continue_with, M, ◌>>=◌, ◌>>◌, pure, raise, diverge,
  lift, or_raise, guard, gets, set_header, set_allocator, set_key, draw, for_each, overwrite, slice,
  read_at, write_at, replay,
}

-- On every outcome the action appends to the log the ranges that, replayed in order, make the file
-- it leaves out of the file it met.
pub record Logged {A : Type 0} (m : M A) : Type 0 where
  pub ranges : Vault → List Range
  pub log : (v : Vault) → (m v).1.change_log ≡ v.change_log ++ ranges v
  pub file : (v : Vault) → (m v).1.file ≡ replay (ranges v) v.file

pub replay-append :
    (rs ss : List Range) (file : List ℕ) → replay (rs ++ ss) file ≡ replay ss (replay rs file)
unfolding replay
replay-append [] ss file = refl
replay-append ((o, b) ∷ rs) ss file = replay-append rs ss (overwrite file o b)

-- An action that touches neither the file nor the log.
pub record Quiet {A : Type 0} (m : M A) : Type 0 where
  pub log : (v : Vault) → (m v).1.change_log ≡ v.change_log
  pub file : (v : Vault) → (m v).1.file ≡ v.file

pub Logged-Quiet : {A : Type 0} {m : M A} → Quiet m → Logged m
unfolding replay
Logged-Quiet q = record {
  ranges = λ v. [];
  log = λ v. q.log v ∙ sym (append-nil v.change_log);
  file = q.file;
}

pub Quiet-pure : {A : Type 0} (a : A) → Quiet (pure a)
unfolding pure
Quiet-pure a = record { log = λ v. refl; file = λ v. refl }

pub Quiet-raise : {A : Type 0} (e : VaultError) → Quiet (raise {A = A} e)
unfolding raise
Quiet-raise e = record { log = λ v. refl; file = λ v. refl }

pub Quiet-diverge : {A : Type 0} → Quiet (diverge {A = A})
unfolding diverge
Quiet-diverge = record { log = λ v. refl; file = λ v. refl }

pub Quiet-lift : {A : Type 0} (r : Result A) → Quiet (lift r)
unfolding lift
Quiet-lift (ok a) = record { log = λ v. refl; file = λ v. refl }
Quiet-lift (err e) = record { log = λ v. refl; file = λ v. refl }

pub Quiet-or_raise : {A : Type 0} (o : Option A) (e : VaultError) → Quiet (or_raise o e)
unfolding or_raise
Quiet-or_raise none e = record { log = λ v. refl; file = λ v. refl }
Quiet-or_raise (some a) e = record { log = λ v. refl; file = λ v. refl }

pub Quiet-guard : (b : Bool) (e : VaultError) → Quiet (guard b e)
unfolding guard
Quiet-guard true e = record { log = λ v. refl; file = λ v. refl }
Quiet-guard false e = record { log = λ v. refl; file = λ v. refl }

pub Quiet-gets : {A : Type 0} (f : Vault → A) → Quiet (gets f)
unfolding gets
Quiet-gets f = record { log = λ v. refl; file = λ v. refl }

pub Quiet-set_header : (f : Header → Header) → Quiet (set_header f)
unfolding set_header
Quiet-set_header f = record { log = λ v. refl; file = λ v. refl }

pub Quiet-set_allocator : (a : BlockAllocator) → Quiet (set_allocator a)
unfolding set_allocator
Quiet-set_allocator a = record { log = λ v. refl; file = λ v. refl }

pub Quiet-set_key : (k : List ℕ) → Quiet (set_key k)
unfolding set_key
Quiet-set_key k = record { log = λ v. refl; file = λ v. refl }

pub Quiet-draw : {A : Type 0} (f : ℕ → A) → Quiet (draw f)
unfolding draw
Quiet-draw f = record { log = λ v. refl; file = λ v. refl }

pub Quiet-read_at : (offset n : ℕ) → Quiet (read_at offset n)
unfolding read_at
Quiet-read_at offset n = record {
  log = λ v. (Quiet-lift (slice v.file offset n)).log v;
  file = λ v. (Quiet-lift (slice v.file offset n)).file v;
}

pub Logged-write_at : (offset : ℕ) (bytes : List ℕ) → Logged (write_at offset bytes)
unfolding write_at replay
Logged-write_at offset bytes = record {
  ranges = λ v. (offset, bytes) ∷ [];
  log = λ v. refl;
  file = λ v. refl;
}

module _ {A B : Type 0} where
  -- The ranges of the rest of a chain, from an outcome on.
  after : (f : A → M B) → ((a : A) → Logged (f a)) → Outcome A → Vault → List Range
  after f l (done a) v = (l a).ranges v
  after f l (failed e) v = []
  after f l loops v = []

  log-continue :
      (f : A → M B) (lf : (a : A) → Logged (f a)) (o : Outcome A) (u : Vault) (l rs : List Range)
      → u.change_log ≡ l ++ rs
      → (continue_with f o u).1.change_log ≡ l ++ (rs ++ after f lf o u)
  unfolding after
  log-continue f lf (done a) u l rs e =
      (lf a).log u ∙ ap (λ x. x ++ (lf a).ranges u) e ∙ append_assoc l rs ((lf a).ranges u)
  log-continue f lf (failed x) u l rs e = e ∙ ap (λ x. l ++ x) (sym (append-nil rs))
  log-continue f lf loops u l rs e = e ∙ ap (λ x. l ++ x) (sym (append-nil rs))

  file-continue :
      (f : A → M B) (lf : (a : A) → Logged (f a)) (o : Outcome A) (u : Vault) (s : List ℕ)
      (rs : List Range)
      → u.file ≡ replay rs s
      → (continue_with f o u).1.file ≡ replay (rs ++ after f lf o u) s
  unfolding after
  file-continue f lf (done a) u s rs e =
      (lf a).file u ∙ ap (replay ((lf a).ranges u)) e ∙ sym (replay-append rs ((lf a).ranges u) s)
  file-continue f lf (failed x) u s rs e = e ∙ ap (λ x. replay x s) (sym (append-nil rs))
  file-continue f lf loops u s rs e = e ∙ ap (λ x. replay x s) (sym (append-nil rs))

  pub Logged-bind : {m : M A} {f : A → M B} → Logged m → ((a : A) → Logged (f a)) → Logged (m >>= f)
  unfolding ◌>>=◌
  Logged-bind {m} {f} lm lf = record {
    ranges = λ v. lm.ranges v ++ after f lf (m v).0 (m v).1;
    log = λ v. log-continue f lf (m v).0 (m v).1 v.change_log (lm.ranges v) (lm.log v);
    file = λ v. file-continue f lf (m v).0 (m v).1 v.file (lm.ranges v) (lm.file v);
  }

pub Logged-then : {B : Type 0} {m : M Unit} {k : M B} → Logged m → Logged k → Logged (m >> k)
unfolding ◌>>◌
Logged-then lm lk = Logged-bind lm (λ _. lk)

pub Logged-if :
    {A : Type 0} (b : Bool) {m k : M A} → Logged m → Logged k → Logged (if b then m else k)
Logged-if true lm lk = lm
Logged-if false lm lk = lk

pub Logged-for_each :
    {A : Type 0} (xs : List A) (body : A → M Unit)
    → ((x : A) → Logged (body x))
    → Logged (for_each xs body)
unfolding for_each
Logged-for_each [] body l = Logged-Quiet (Quiet-pure tt)
Logged-for_each (x ∷ xs) body l = Logged-then (l x) (Logged-for_each xs body l)

pub Logged-pure : {A : Type 0} (a : A) → Logged (pure a)
Logged-pure a = Logged-Quiet (Quiet-pure a)

pub Logged-diverge : {A : Type 0} → Logged (diverge {A = A})
Logged-diverge = Logged-Quiet Quiet-diverge

pub Logged-lift : {A : Type 0} (r : Result A) → Logged (lift r)
Logged-lift r = Logged-Quiet (Quiet-lift r)

pub Logged-or_raise : {A : Type 0} (o : Option A) (e : VaultError) → Logged (or_raise o e)
Logged-or_raise o e = Logged-Quiet (Quiet-or_raise o e)

pub Logged-guard : (b : Bool) (e : VaultError) → Logged (guard b e)
Logged-guard b e = Logged-Quiet (Quiet-guard b e)

pub Logged-gets : {A : Type 0} (f : Vault → A) → Logged (gets f)
Logged-gets f = Logged-Quiet (Quiet-gets f)

pub Logged-set_header : (f : Header → Header) → Logged (set_header f)
Logged-set_header f = Logged-Quiet (Quiet-set_header f)

pub Logged-set_allocator : (a : BlockAllocator) → Logged (set_allocator a)
Logged-set_allocator a = Logged-Quiet (Quiet-set_allocator a)

pub Logged-set_key : (k : List ℕ) → Logged (set_key k)
Logged-set_key k = Logged-Quiet (Quiet-set_key k)

pub Logged-draw : {A : Type 0} (f : ℕ → A) → Logged (draw f)
Logged-draw f = Logged-Quiet (Quiet-draw f)

pub Logged-read_at : (offset n : ℕ) → Logged (read_at offset n)
Logged-read_at offset n = Logged-Quiet (Quiet-read_at offset n)

pub ruleset logged = (
  Logged-bind, Logged-then, Logged-if, Logged-pure, Logged-diverge, Logged-lift, Logged-or_raise,
  Logged-guard, Logged-gets, Logged-set_header, Logged-set_allocator, Logged-set_key, Logged-draw,
  Logged-read_at, Logged-write_at,
)

module _ {A B : Type 0} where
  log-Quiet :
      (f : A → M B)
      → ((a : A) → Quiet (f a))
      → (o : Outcome A) (u : Vault) → (continue_with f o u).1.change_log ≡ u.change_log
  log-Quiet f q (done a) u = (q a).log u
  log-Quiet f q (failed e) u = refl
  log-Quiet f q loops u = refl

  file-Quiet :
      (f : A → M B)
      → ((a : A) → Quiet (f a))
      → (o : Outcome A) (u : Vault) → (continue_with f o u).1.file ≡ u.file
  file-Quiet f q (done a) u = (q a).file u
  file-Quiet f q (failed e) u = refl
  file-Quiet f q loops u = refl

  pub Quiet-bind : {m : M A} {f : A → M B} → Quiet m → ((a : A) → Quiet (f a)) → Quiet (m >>= f)
  unfolding ◌>>=◌
  Quiet-bind {m} {f} qm qf = record {
    log = λ v. log-Quiet f qf (m v).0 (m v).1 ∙ qm.log v;
    file = λ v. file-Quiet f qf (m v).0 (m v).1 ∙ qm.file v;
  }

pub Quiet-then : {B : Type 0} {m : M Unit} {k : M B} → Quiet m → Quiet k → Quiet (m >> k)
unfolding ◌>>◌
Quiet-then qm qk = Quiet-bind qm (λ _. qk)

pub ruleset quiet = (
  Quiet-bind, Quiet-then, Quiet-pure, Quiet-lift, Quiet-guard, Quiet-gets, Quiet-set_header,
  Quiet-set_allocator, Quiet-read_at,
)
