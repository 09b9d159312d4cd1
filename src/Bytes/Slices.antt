-- ===== src/Bytes/Slices.antt =====
-- Slices of joined byte lists, and `ReadFull` on them.
use go_core_x.Prelude.{
  ℕ, zero, suc, ◌+◌, ◌-◌, ◌≤◌, ◌≡◌, refl, sym, ap, ◌∙◌, arith, [], ◌∷◌, ◌++◌, append-nil, drop,
  drop-drop, length, length-append, ltb, nat_eq, false, Bool-cases, inl, inr,
}
use go_core_x.Bytes.{Bytes, take, slice, byte_at, full, read_full}

pub take-append : (xs ys : Bytes) → take (length xs) (xs ++ ys) ≡ xs
take-append [] ys = refl
take-append (x ∷ xs) ys = ap (λ l. x ∷ l) (take-append xs ys)

pub drop-append : (xs ys : Bytes) → drop (length xs) (xs ++ ys) ≡ ys
drop-append [] ys = refl
drop-append (x ∷ xs) ys = drop-append xs ys

pub take-drop : (n : ℕ) (bs : Bytes) → take n bs ++ drop n bs ≡ bs
take-drop zero bs = refl
take-drop (suc n) [] = refl
take-drop (suc n) (b ∷ bs) = ap (λ l. b ∷ l) (take-drop n bs)

pub length-take : (n : ℕ) (bs : Bytes) → n ≤ length bs → length (take n bs) ≡ n
length-take zero bs h = refl
length-take (suc n) [] h = absurd (omega arith)
length-take (suc n) (b ∷ bs) h = omega (arith, length-take n bs (omega arith))

-- The same with the length given.
pub take_front : (n : ℕ) (xs ys : Bytes) → length xs ≡ n → take n (xs ++ ys) ≡ xs
take_front n xs ys h = rw (sym h) (take-append xs ys)

pub drop_front : (n : ℕ) (xs ys : Bytes) → length xs ≡ n → drop n (xs ++ ys) ≡ ys
drop_front n xs ys h = rw (sym h) (drop-append xs ys)

pub read_full_front : (n : ℕ) (xs ys : Bytes) → length xs ≡ n → read_full n (xs ++ ys) ≡ full xs ys
unfolding read_full
read_full_front n xs ys h =
    let long : ltb (length (xs ++ ys)) n ≡ false = ground (arith, length-append xs ys, h) in
    rw (read_full, long, take_front n xs ys h, drop_front n xs ys h) refl

pub take_whole : (n : ℕ) (xs : Bytes) → length xs ≡ n → take n xs ≡ xs
take_whole n xs h = ap (take n) (sym (append-nil xs)) ∙ take_front n xs [] h

pub drop_all : (n : ℕ) (bs : Bytes) → length bs ≤ n → drop n bs ≡ []
drop_all zero [] h = refl
drop_all zero (b ∷ bs) h = absurd (omega arith)
drop_all (suc n) [] h = refl
drop_all (suc n) (b ∷ bs) h = drop_all n bs (omega arith)

pub take_all : (n : ℕ) (bs : Bytes) → length bs ≤ n → take n bs ≡ bs
take_all zero [] h = refl
take_all zero (b ∷ bs) h = absurd (omega arith)
take_all (suc n) [] h = refl
take_all (suc n) (b ∷ bs) h = ap (λ l. b ∷ l) (take_all n bs (omega arith))

-- A slice within the second of two joined lists, and one that is the first of them.
pub slice_behind :
    (k lo hi : ℕ) (xs ys : Bytes)
    → length xs ≡ k
    → slice (k + lo) (k + hi) (xs ++ ys) ≡ slice lo hi ys
slice_behind k lo hi xs ys h =
    let size : k + hi - (k + lo) ≡ hi - lo = omega arith in
    rw (size, sym (drop-drop lo k (xs ++ ys)), drop_front k xs ys h) refl

pub slice_front : (hi : ℕ) (xs ys : Bytes) → length xs ≡ hi → slice 0 hi (xs ++ ys) ≡ xs
slice_front hi xs ys h = let size : hi - 0 ≡ hi = omega arith in rw size (take_front hi xs ys h)

pub byte_at_behind :
    (k n : ℕ) (xs ys : Bytes) → length xs ≡ k → byte_at (k + n) (xs ++ ys) ≡ byte_at n ys
byte_at_behind k n [] ys h = let e : k + n ≡ n = omega arith in rw e refl
byte_at_behind zero n (x ∷ xs) ys h = absurd (omega arith)
byte_at_behind (suc k) n (x ∷ xs) ys h =
    let e : suc k + n ≡ suc (k + n) = omega arith in rw e (byte_at_behind k n xs ys (omega arith))

-- What a full read says of the input.
pub read_full_parts :
    (n : ℕ) (bs : Bytes) (chunk rest : Bytes)
    → read_full n bs ≡ full chunk rest
    → (length chunk ≡ n) × (chunk ++ rest ≡ bs)
unfolding read_full
read_full_parts n bs chunk rest h = elim (Bool-cases (ltb (length bs) n)) [
  | inl q ↦ absurd (ground (arith, h, q))
  | inr q ↦
      let c : take n bs ≡ chunk = ground (arith, h, q) in
      let r : drop n bs ≡ rest = ground (arith, h, q) in
      (rw (sym c) (length-take n bs (ground (arith, q))), rw (sym c, sym r) (take-drop n bs))
]
