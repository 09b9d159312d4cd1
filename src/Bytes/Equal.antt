-- ===== src/Bytes/Equal.antt =====
-- The comparison of two `[]byte`, or of two strings by their bytes.
use go_core_x.Prelude.{◌≡◌, ◌↔◌, arith, Bool, true, false, ◌&&◌, [], ◌∷◌, Comparable, ◌==◌, nat_eq}
use go_core_x.Bytes.{Bytes}

abbrev pub bytes_same : Bytes → Bytes → Bool
bytes_same [] [] = true
bytes_same [] (b ∷ bs) = false
bytes_same (a ∷ as') [] = false
bytes_same (a ∷ as') (b ∷ bs) = a == b && bytes_same as' bs

pub bytes_same_iff : (a b : Bytes) → (bytes_same a b ≡ true) ↔ (a ≡ b)
bytes_same_iff [] [] = ground arith
bytes_same_iff [] (b ∷ bs) = ground arith
bytes_same_iff (a ∷ as') [] = ground arith
bytes_same_iff (a ∷ as') (b ∷ bs) = ground (arith, bytes_same_iff as' bs)

instance abbrev pub bytes_eq : Comparable Bytes
bytes_eq = record { same = bytes_same; same_iff = bytes_same_iff }
