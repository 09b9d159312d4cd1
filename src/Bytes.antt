-- ===== src/Bytes.antt =====
-- A `[]byte` as a list of numbers: slices, and the fixed-width integers of encoding/binary.
pub mod Numbers
pub mod Slices
pub mod Equal
use go_core_x.Prelude.{
  ℕ, zero, suc, ◌+◌, ◌-◌, ◌*◌, ◌/◌, ◌%◌, Bool, true, false, List, [], ◌∷◌, ◌++◌, drop, length, ltb,
  ◌==◌, nat_eq, if◌then◌else◌,
}

abbrev pub Bytes : Type 0
Bytes = List ℕ

abbrev pub take : ℕ → Bytes → Bytes
take zero bs = []
take (suc n) [] = []
take (suc n) (b ∷ bs) = b ∷ take n bs

-- bs[lo:hi]
abbrev pub slice : ℕ → ℕ → Bytes → Bytes
slice lo hi bs = take (hi - lo) (drop lo bs)

-- bs[n], which the program reads only where there is one.
abbrev pub byte_at : ℕ → Bytes → ℕ
byte_at n [] = 0
byte_at zero (b ∷ bs) = b
byte_at (suc n) (b ∷ bs) = byte_at n bs

-- binary.BigEndian: the lowest `k` bytes of a number, the highest first, and back.
unfoldable pub put_be : ℕ → ℕ → Bytes
put_be zero n = []
put_be (suc k) n = put_be k (n / 256) ++ (n % 256) ∷ []

unfoldable pub get_be_from : ℕ → Bytes → ℕ
get_be_from acc [] = acc
get_be_from acc (b ∷ bs) = get_be_from (acc * 256 + b) bs

abbrev pub get_be : Bytes → ℕ
get_be = get_be_from 0

-- binary.LittleEndian: the lowest byte first.
unfoldable pub put_le : ℕ → ℕ → Bytes
put_le zero n = []
put_le (suc k) n = (n % 256) ∷ put_le k (n / 256)

unfoldable pub get_le : Bytes → ℕ
get_le [] = 0
get_le (b ∷ bs) = b + 256 * get_le bs

-- io.ReadFull of `n` bytes: all of them with what is left, or EOF if there is none at all, or
-- ErrUnexpectedEOF.
pub data ReadFull : Type 0 where
  full : Bytes → Bytes → ReadFull
  eof unexpected_eof : ReadFull

unfoldable pub read_full : ℕ → Bytes → ReadFull
read_full n bs =
    if ltb (length bs) n
    then (if length bs == 0 then eof else unexpected_eof)
    else full (take n bs) (drop n bs)
