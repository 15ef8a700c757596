-- ===== src/Vault/Region.antt =====
-- Reads after writes of a file's bytes, at the same place and apart from it.
use re_vault.Prelude.{
  ℕ, zero, suc, ◌+◌, ◌-◌, ◌≤◌, ◌<◌, ◌≡◌, refl, sym, ap, ◌∙◌, List, [], ◌∷◌, ◌++◌, append-nil,
  length, take, drop, replicate, length-append, length-take, length-replicate, take-append,
  drop-append, arith, ltb, false, if◌then◌else◌,
}
use re_vault.Error.{io, unexpected_eof, ok, err}
use re_vault.Vault.State.{overwrite, slice}

take_append : (xs ys : List ℕ) (n : ℕ) → n ≤ length xs → take n (xs ++ ys) ≡ take n xs
take_append xs ys zero h = refl
take_append [] ys (suc n) h = absurd (omega arith)
take_append (x ∷ xs) ys (suc n) h = ap (λ t. x ∷ t) (take_append xs ys n (omega arith))

take-take : (m n : ℕ) (xs : List ℕ) → n ≤ m → take n (take m xs) ≡ take n xs
take-take m zero xs h = refl
take-take zero (suc n) xs h = absurd (omega arith)
take-take (suc m) (suc n) [] h = refl
take-take (suc m) (suc n) (x ∷ xs) h = ap (λ t. x ∷ t) (take-take m n xs (omega arith))

window_append :
    (xs ys : List ℕ) (at n : ℕ)
    → at + n ≤ length xs
    → take n (drop at (xs ++ ys)) ≡ take n (drop at xs)
window_append xs ys zero n h = take_append xs ys n (omega (arith, h))
window_append [] ys (suc at) zero h = refl
window_append [] ys (suc at) (suc n) h = absurd (omega arith)
window_append (x ∷ xs) ys (suc at) n h = window_append xs ys at n (omega arith)

window_take :
    (m at n : ℕ) (xs : List ℕ) → at + n ≤ m → take n (drop at (take m xs)) ≡ take n (drop at xs)
window_take m zero n xs h = take-take m n xs (omega (arith, h))
window_take zero (suc at) n xs h = absurd (omega arith)
window_take (suc m) (suc at) n [] h = refl
window_take (suc m) (suc at) n (x ∷ xs) h = window_take m at n xs (omega arith)

drop_append : (xs ys : List ℕ) (n : ℕ) → drop (length xs + n) (xs ++ ys) ≡ drop n ys
drop_append [] ys n = ap (λ k. drop k ys) (let e : 0 + n ≡ n = omega arith in e)
drop_append (x ∷ xs) ys n =
    ap (λ k. drop k (x ∷ (xs ++ ys)))
      (let e : suc (length xs) + n ≡ suc (length xs + n) = omega arith in e)
    ∙ drop_append xs ys n

drop_nil : (n : ℕ) → drop {A = ℕ} n [] ≡ []
drop_nil zero = refl
drop_nil (suc n) = refl

drop-drop : (m n : ℕ) (xs : List ℕ) → drop n (drop m xs) ≡ drop (m + n) xs
drop-drop zero n xs = ap (λ k. drop k xs) (let e : n ≡ 0 + n = omega arith in e)
drop-drop (suc m) n [] = drop_nil n ∙ sym (drop_nil (suc m + n))
drop-drop (suc m) n (x ∷ xs) =
    drop-drop m n xs
    ∙ ap (λ k. drop k (x ∷ xs)) (let e : suc (m + n) ≡ suc m + n = omega arith in e)

-- The bytes before the place of a write, filled up with zeros.
before : List ℕ → ℕ → List ℕ
before file offset = take offset file ++ replicate (offset - length file) 0

length-before : (file : List ℕ) (offset : ℕ) → length (before file offset) ≡ offset
unfolding before
length-before file offset = omega (
  arith,
  length-append (take offset file) (replicate (offset - length file) 0),
  length-take offset file,
  length-replicate {A = ℕ} (offset - length file) 0,
)

overwrite_parts :
    (file : List ℕ) (offset : ℕ) (bytes : List ℕ)
    → 0 < length bytes
    → overwrite file offset bytes
      ≡ before file offset ++ (bytes ++ drop (offset + length bytes) file)
unfolding overwrite before
overwrite_parts file offset [] p = absurd (omega arith)
overwrite_parts file offset (b ∷ bs) p = refl

ltb_self : (n : ℕ) → ltb n n ≡ false
ltb_self n = ground arith

pub slice-overwrite_same :
    (file : List ℕ) (offset : ℕ) (bytes : List ℕ)
    → 0 < length bytes
    → slice (overwrite file offset bytes) offset (length bytes) ≡ ok bytes
unfolding slice
slice-overwrite_same file offset bytes p =
    rw
      (
        overwrite_parts file offset bytes p,
        drop-append (before file offset) (bytes ++ drop (offset + length bytes) file) offset
            (sym (length-before file offset)),
        take-append bytes (drop (offset + length bytes) file) (length bytes) refl,
        ltb_self (length bytes),
      )
      refl

-- A read that ends where a write inside the file begins, or sooner, does not see the write.
pub slice-overwrite_before :
    (file : List ℕ) (offset : ℕ) (bytes : List ℕ) (at n : ℕ)
    → 0 < length bytes
    → at + n ≤ offset
    → offset ≤ length file
    → slice (overwrite file offset bytes) at n ≡ slice file at n
unfolding slice before
slice-overwrite_before file offset bytes at n p apart inside =
    let front : before file offset ≡ take offset file =
      ap (λ k. take offset file ++ replicate k 0)
        (let e : offset - length file ≡ 0 = omega arith in e)
      ∙ append-nil _ in
    let found : take n (drop at (overwrite file offset bytes)) ≡ take n (drop at file) =
      ap (λ f. take n (drop at f)) (overwrite_parts file offset bytes p)
      ∙ window_append (before file offset) _ at n (omega (arith, length-before file offset))
      ∙ ap (λ f. take n (drop at f)) front
      ∙ window_take offset at n file apart in
    ap (λ f. if ltb (length f) n then err (io unexpected_eof) else ok f) found

-- A read that begins where a write ends, or later, does not see the write.
pub slice-overwrite_after :
    (file : List ℕ) (offset : ℕ) (bytes : List ℕ) (at n : ℕ)
    → 0 < length bytes
    → offset + length bytes ≤ at
    → slice (overwrite file offset bytes) at n ≡ slice file at n
unfolding slice before
slice-overwrite_after file offset bytes at n p apart =
    let rest = drop (offset + length bytes) file in
    let k = at - (offset + length bytes) in
    let here : at ≡ length (before file offset) + (length bytes + k) =
      omega (arith, length-before file offset) in
    ap (λ f. if ltb (length (take n f)) n then err (io unexpected_eof) else ok (take n f))
      (ap (drop at) (overwrite_parts file offset bytes p)
        ∙ ap (λ k. drop k (before file offset ++ (bytes ++ rest))) here
        ∙ drop_append (before file offset) (bytes ++ rest) (length bytes + k)
        ∙ drop_append bytes rest k
        ∙ drop-drop (offset + length bytes) k file
        ∙ ap (λ k. drop k file) (let e : offset + length bytes + k ≡ at = omega arith in e))
