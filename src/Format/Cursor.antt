-- ===== src/Format/Cursor.antt =====
-- The `Writer` and `Reader` of core/format.rs. What a `Writer` method pushes is a list of bytes, and
-- a buffer is what was pushed, in order. A `Reader` holds the bytes that it has not read, and `pos`.
use re_vault.Prelude.{
  ℕ, ◌+◌, ◌-◌, ◌^◌, ◌<◌, ◌≤◌, ◌≡◌, refl, ap, ◌∙◌, sym, Bool, true, false, List, [], ◌++◌,
  append_assoc, append-nil, length, length-append, length-replicate, take, drop, replicate,
  take-append, drop-append, ltb, if◌then◌else◌, arith, to_le_bytes, from_le_bytes,
  length-to_le_bytes, from_le_bytes-to_le_bytes, String, bytes_eq, bytes_eq_refl,
}
use re_vault.Error.{VaultError, corrupt_container, Result, ok, err}

-- `w.fixed(data, width)`: the data, then zeros up to the width.
unfoldable pub fixed : List ℕ → ℕ → List ℕ
fixed xs width = xs ++ replicate (width - length xs) 0

-- `while w.buf.len() < size { w.buf.push(0) }`
unfoldable pub pad_to : ℕ → List ℕ → List ℕ
pad_to size xs = xs ++ replicate (size - length xs) 0

pub record Reader : Type 0 where
  pub rest : List ℕ
  pub pos : ℕ

abbrev pub Parser : Type 0 → Type 0
Parser A = Reader → Result (A × Reader)

infixl 5 ◌>>=◌ ◌>>◌
unfoldable pub ◌>>=◌ : {A B : Type 0} → Parser A → (A → Parser B) → Parser B
◌>>=◌ p f r = elim (p r) [ ok (a, r') ↦ f a r' | err e ↦ err e ]

unfoldable pub ◌>>◌ : {B : Type 0} → Parser (Unit {0}) → Parser B → Parser B
unfolding ◌>>=◌
p >> k = p >>= λ _. k

unfoldable pub pure : {A : Type 0} → A → Parser A
pure a r = ok (a, r)

unfoldable pub guard : Bool → VaultError → Parser (Unit {0})
guard true e r = ok (tt, r)
guard false e r = err e

abbrev pub short_record : String
short_record = "unexpected end of record while decoding"

-- A step that fails or gives a value, and reads nothing.
unfoldable pub lift : {A : Type 0} → Result A → Parser A
lift (ok a) r = ok (a, r)
lift (err e) r = err e

-- `r.bytes(n)`, with the check of `need`.
unfoldable pub bytes : ℕ → Parser (List ℕ)
bytes n r =
    if ltb (length r.rest) n
    then err (corrupt_container short_record)
    else ok (take n r.rest, record { rest = drop n r.rest; pos = r.pos + n })

-- `r.u8()`, `r.u16()`, … at their widths in bytes; an `i64` is its bit pattern.
unfoldable pub uint : ℕ → Parser ℕ
unfolding ◌>>=◌ pure bytes
uint width = do raw ← bytes width; pure (from_le_bytes raw)

-- `r.pos`
unfoldable pub position : Parser ℕ
position r = ok (r.pos, r)

-- On input that begins with `xs` the parser returns `v` and stops behind `xs`.
pub record Reads {A : Type 0} (p : Parser A) (xs : List ℕ) (v : A) : Type 0 where
  pub run :
      (more : List ℕ) (n : ℕ)
      → p (record { rest = xs ++ more; pos = n })
        ≡ ok (v, record { rest = more; pos = n + length xs })

Reader_path :
    (more : List ℕ) {m n : ℕ}
    → m ≡ n
    → ◌≡◌ {A = Reader} (record { rest = more; pos = m }) (record { rest = more; pos = n })
Reader_path more e i = record { rest = more; pos = e i }

pub Reads-pure : {A : Type 0} (v : A) → Reads (pure v) [] v
unfolding pure
Reads-pure v = record { run = λ more n. ap (λ r. ok (v, r)) (Reader_path more (omega arith)) }

pub Reads-bind :
    {A B : Type 0} (p : Parser A) (f : A → Parser B) {xs ys : List ℕ} {v : A} {w : B}
    → Reads p xs v
    → Reads (f v) ys w
    → Reads (p >>= f) (xs ++ ys) w
unfolding ◌>>=◌
Reads-bind p f {xs} {ys} {v} {w} a b = record {
  run = λ more n. rw (append_assoc xs ys more) (
      rw (a.run (ys ++ more) n, ◌>>=◌, b.run more (n + length xs))
        (ap (λ r. ok (w, r)) (Reader_path more (omega (arith, length-append xs ys)))));
}

pub Reads-map :
    {A B : Type 0} (p : Parser A) (g : A → B) {xs : List ℕ} {v : A}
    → Reads p xs v
    → Reads (p >>= λ a. pure (g a)) xs (g v)
Reads-map p g {xs} {v} a =
    rw append-nil at (Reads-bind p (λ x. pure (g x)) {xs = xs} {ys = []} a (Reads-pure (g v)))

pub Reads-guard :
    {B : Type 0} (k : Parser B) (b : Bool) (e : VaultError) {ys : List ℕ} {w : B}
    → b ≡ true
    → Reads k ys w
    → Reads (guard b e >> k) ys w
unfolding guard ◌>>◌
Reads-guard k b e h a = record { run = λ more n. rw h (a.run more n) }

-- A read followed by a step that reads nothing.
pub Reads-last :
    {A B : Type 0} (p : Parser A) (f : A → Parser B) {xs : List ℕ} {v : A} {w : B}
    → Reads p xs v
    → Reads (f v) [] w
    → Reads (p >>= f) xs w
Reads-last p f {xs} a b = rw append-nil at (Reads-bind p f {xs = xs} {ys = []} a b)

pub Reads-lift :
    {A B : Type 0} (m : Result A) (f : A → Parser B) {a : A} {ys : List ℕ} {w : B}
    → m ≡ ok a
    → Reads (f a) ys w
    → Reads (lift m >>= f) ys w
unfolding lift ◌>>=◌
Reads-lift m f e b = record { run = λ more n. rw e (b.run more n) }

pub Reads-bytes : (n : ℕ) (xs : List ℕ) → length xs ≡ n → Reads (bytes n) xs xs
unfolding bytes
Reads-bytes n xs h = record {
  run = λ more m.
      let enough : ltb (length (xs ++ more)) n ≡ false = ground (arith, length-append xs more) in
      rw (enough, take-append xs more n (sym h), drop-append xs more n (sym h), h);
}

pub Reads-uint : (w v : ℕ) → v < 256 ^ w → Reads (uint w) (to_le_bytes w v) v
unfolding uint
Reads-uint w v h = record {
  run = λ more n.
      rw ((Reads-bytes w (to_le_bytes w v) (length-to_le_bytes w v)).run more n, uint, ◌>>=◌)
        (rw (from_le_bytes-to_le_bytes w v h));
}

pub length-fixed : (xs : List ℕ) (w : ℕ) → length xs ≤ w → length (fixed xs w) ≡ w
unfolding fixed
length-fixed xs w h = omega (
  arith,
  length-append xs (replicate (w - length xs) 0),
  length-replicate {0} {A = ℕ} (w - length xs) 0,
)

pub length-pad_to : (n : ℕ) (xs : List ℕ) → length xs ≤ n → length (pad_to n xs) ≡ n
unfolding pad_to
length-pad_to n xs h = omega (
  arith,
  length-append xs (replicate (n - length xs) 0),
  length-replicate {0} {A = ℕ} (n - length xs) 0,
)

-- The text of a fixed field is what stands before the padding.
pub take-fixed : (xs : List ℕ) (w : ℕ) → take (length xs) (fixed xs w) ≡ xs
unfolding fixed
take-fixed xs w = take-append xs _ (length xs) refl

-- `Reader::new(buf)`, and a chain of reads over it.
unfoldable pub parse : {A : Type 0} → Parser A → List ℕ → Result A
parse p buf = elim (p (record { rest = buf; pos = 0 })) [ ok (a, r) ↦ ok a | err e ↦ err e ]

-- A field that its data fills has no padding.
pub fixed_exact : (xs : List ℕ) (w : ℕ) → length xs ≡ w → fixed xs w ≡ xs
unfolding fixed
fixed_exact xs w h =
    let full : w - length xs ≡ 0 = omega arith in ap (λ k. xs ++ replicate k 0) full ∙ append-nil xs

pub Reads-fixed : (xs : List ℕ) (w : ℕ) → length xs ≡ w → Reads (bytes w) (fixed xs w) xs
Reads-fixed xs w h = rw (fixed_exact xs w h) (Reads-bytes w xs h)

pub bind_ok :
    {A B : Type 0} (p : Parser A) (f : A → Parser B) (r : Reader) {a : A} {r' : Reader}
    → p r ≡ ok (a, r')
    → (p >>= f) r ≡ f a r'
unfolding ◌>>=◌
bind_ok p f r e = rw (e, ◌>>=◌)

pub parse_ok :
    {A : Type 0} (p : Parser A) (buf : List ℕ) {a : A} {r : Reader}
    → p (record { rest = buf; pos = 0 }) ≡ ok (a, r)
    → parse p buf ≡ ok a
unfolding parse
parse_ok p buf e = rw (e, parse)

pub guard_ok :
    {B : Type 0} (b : Bool) (e : VaultError) (k : Parser B) (r : Reader)
    → b ≡ true
    → (guard b e >> k) r ≡ k r
unfolding guard ◌>>◌
guard_ok b e k r h = rw h

-- How the `decode` functions end: a checksum of `n` bytes over all that was read is read and compared.
unfoldable pub checked :
    {A : Type 0} → ℕ → (List ℕ → List ℕ) → VaultError → Parser A → List ℕ → Parser A
unfolding ◌>>=◌ ◌>>◌ pure guard position bytes
checked n digest mismatch fields buf = do
  value ← fields
  checksum_pos ← position
  stored ← bytes n
  guard (bytes_eq stored (digest (take checksum_pos buf))) mismatch
  pure value

module _ {A : Type 0} (n : ℕ) (digest : List ℕ → List ℕ) (mismatch : VaultError) where
  pub parse-checked :
      (fields : Parser A) (a : A) (body more input later buf : List ℕ)
      → Reads fields body a
      → length (digest body) ≡ n
      → input ≡ body ++ (digest body ++ more)
      → buf ≡ body ++ later
      → parse (checked n digest mismatch fields buf) input ≡ ok a
  unfolding parse checked position pure
  parse-checked fields a body more input later buf r hn e e' =
      rw (read_fields, parse, checked, ◌>>=◌, position, read_sum, matches, guard, ◌>>◌)
    where
      read_fields :
          fields (record { rest = input; pos = 0 })
          ≡ ok (a, record { rest = digest body ++ more; pos = 0 + length body })
      read_fields = rw e (r.run (digest body ++ more) 0)

      read_sum :
          bytes n (record { rest = digest body ++ more; pos = 0 + length body })
          ≡ ok (digest body, record { rest = more; pos = 0 + length body + length (digest body) })
      read_sum = (Reads-bytes n (digest body) hn).run more (0 + length body)

      covered : take (0 + length body) buf ≡ body
      covered = rw e' (take-append body later (0 + length body) (omega arith))

      matches : bytes_eq (digest body) (digest (take (0 + length body) buf)) ≡ true
      matches = rw covered (bytes_eq_refl (digest body))

  -- A slot as the `encode` functions write it, at the start of `buf`, and as `decode` reads it.
  pub parse-slot :
      (fields : Parser A) (a : A) (body slot later : List ℕ) (size : ℕ)
      → Reads fields body a
      → length (digest body) ≡ n
      → length body + n ≤ size
      → slot ≡ pad_to size (body ++ fixed (digest body) n)
      → (length slot ≡ size)
        × (ltb (length (slot ++ later)) size ≡ false)
        × (parse (checked n digest mismatch fields (slot ++ later)) (take size (slot ++ later))
            ≡ ok a)
  parse-slot fields a body slot later size r hn hs e = (
    whole,
    ground (arith, length-append slot later, whole),
    rw (take-append slot later size (sym whole)) (
        parse-checked fields a body padding slot ((digest body ++ padding) ++ later) (slot ++ later)
          r hn shape (rw shape (append_assoc body (digest body ++ padding) later))),
  )
    where
      padding : List ℕ
      padding = replicate (size - length (body ++ fixed (digest body) n)) 0

      whole : length slot ≡ size
      whole = rw e (
          length-pad_to size (body ++ fixed (digest body) n)
            (rw (fixed_exact (digest body) n hn) (omega (arith, length-append body (digest body)))))

      shape : slot ≡ body ++ (digest body ++ padding)
      shape =
          e
          ∙ unfold pad_to in
            ap (λ t. (body ++ t) ++ padding) (fixed_exact (digest body) n hn)
            ∙ append_assoc body (digest body) padding
