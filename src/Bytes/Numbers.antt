-- ===== src/Bytes/Numbers.antt =====
-- What is read back of a number that was written.
use go_core_x.Prelude.{
  ℕ, zero, suc, ◌+◌, ◌*◌, ◌/◌, ◌%◌, ◌^◌, ◌<◌, ◌≡◌, refl, arith, [], ◌∷◌, ◌++◌, length,
  length-append,
}
use go_core_x.Bytes.{Bytes, put_be, get_be_from, get_be, put_le, get_le}

pub length-put_be : (k n : ℕ) → length (put_be k n) ≡ k
unfolding put_be
length-put_be zero n = refl
length-put_be (suc k) n =
    omega (arith, length-append (put_be k (n / 256)) ((n % 256) ∷ []), length-put_be k (n / 256))

get_be_from-snoc :
    (acc : ℕ) (bs : Bytes) (b : ℕ) → get_be_from acc (bs ++ b ∷ []) ≡ get_be_from acc bs * 256 + b
unfolding get_be_from
get_be_from-snoc acc [] b = refl
get_be_from-snoc acc (c ∷ bs) b = get_be_from-snoc (acc * 256 + c) bs b

pub get_be-put_be : (k n : ℕ) → n < 256 ^ k → get_be (put_be k n) ≡ n
unfolding put_be
get_be-put_be zero n h = unfold get_be_from in omega arith
get_be-put_be (suc k) n h = omega (
  arith,
  get_be_from-snoc 0 (put_be k (n / 256)) (n % 256),
  get_be-put_be k (n / 256) (omega arith),
)

pub length-put_le : (k n : ℕ) → length (put_le k n) ≡ k
unfolding put_le
length-put_le zero n = refl
length-put_le (suc k) n = omega (arith, length-put_le k (n / 256))

pub get_le-put_le : (k n : ℕ) → n < 256 ^ k → get_le (put_le k n) ≡ n
unfolding put_le get_le
get_le-put_le zero n h = omega arith
get_le-put_le (suc k) n h = omega (arith, get_le-put_le k (n / 256) (omega arith))
