-- ===== src/Raft/Node/Log.antt =====
-- The shape of a node's log: consecutive indices that begin behind the snapshot.
use mathlib.Core.Path.{subst}
use native.Mathlib.Decide.{dec_lt}
use native.Mathlib.Nat.{add-zero}
use go_core_x.Prelude.{
  ltb, leb, ◌==◌, if◌then◌else◌, Bool-cases, inl, inr, ℕ, suc, ◌+◌, ◌≤◌, ◌<◌, ◌≡◌, refl, none, some,
  List, [], ◌∷◌, ◌++◌, arith, length, get_last?, nat_eq,
}
use go_core_x.Raft.Types.{LogEntry}
use go_core_x.Raft.Stores.{take_below, drop_through}
use go_core_x.Raft.Node.{RaftNode, find_back}

abbrev pub IsConsecutive : ℕ → List LogEntry → Type 0
IsConsecutive i [] = Unit
IsConsecutive i (e ∷ es) = (e.index ≡ i) × IsConsecutive (suc i) es

pub record IsWellFormed (n : RaftNode) : Type 0 where
  pub consecutive : IsConsecutive (suc n.snapshot_index) n.log

-- The longer log is consecutive where the second part begins behind the first.
pub IsConsecutive-append :
    (i : ℕ) (es fs : List LogEntry)
    → IsConsecutive i es
    → IsConsecutive (i + length es) fs
    → IsConsecutive i (es ++ fs)
IsConsecutive-append i [] fs h k = rw add-zero at k
IsConsecutive-append i (e ∷ es) fs h k =
    (h.0, IsConsecutive-append (suc i) es fs h.1 (subst (λ j. IsConsecutive j fs) (omega arith) k))

pub find_back-below :
    (i j : ℕ) (es : List LogEntry) → IsConsecutive i es → j < i → find_back j es ≡ none
unfolding find_back
find_back-below i j [] h lt = refl
find_back-below i j (e ∷ es) h lt = ground (arith, find_back-below (suc i) j es h.1 (omega arith))

pub find_back-above :
    (i j : ℕ) (es : List LogEntry) → IsConsecutive i es → i + length es ≤ j → find_back j es ≡ none
unfolding find_back
find_back-above i j [] h le = refl
find_back-above i j (e ∷ es) h le = ground (arith, find_back-above (suc i) j es h.1 (omega arith))

pub find_back-append :
    (j : ℕ) (es fs : List LogEntry)
    → find_back j (es ++ fs) ≡ elim (find_back j fs) [ some e ↦ some e | none ↦ find_back j es ]
unfolding find_back
find_back-append j [] fs = ground arith
find_back-append j (e ∷ es) fs = ground (arith, find_back-append j es fs)

pub find_back-snoc :
    (j : ℕ) (es : List LogEntry) (e : LogEntry)
    → find_back j (es ++ e ∷ []) ≡ (if e.index == j then some e else find_back j es)
unfolding find_back
find_back-snoc j es e = rw (find_back-append j es (e ∷ [])) (ground arith)

-- What is found has the index that was asked for.
pub find_back-index :
    (j : ℕ) (es : List LogEntry) {e : LogEntry} → find_back j es ≡ some e → e.index ≡ j
unfolding find_back
find_back-index j [] h = cc
find_back-index j (f ∷ es) {e} h = ground (arith, find_back-index j es {e = e})

pub find_back-inside :
    (i j : ℕ) (es : List LogEntry)
    → IsConsecutive i es
    → i ≤ j
    → j < i + length es
    → (e : LogEntry) × (find_back j es ≡ some e)
unfolding find_back
find_back-inside i j [] h le lt = absurd (omega arith)
find_back-inside i j (e ∷ es) h le lt = elim (dec_lt i j) [
  | yes p ↦ let (f, q) = find_back-inside (suc i) j es h.1 p (omega arith) in (f, rw q)
  | no p ↦ (e, ground (arith, find_back-below (suc i) j es h.1 (omega arith)))
]

pub get_last?-index :
    (i : ℕ) (es : List LogEntry) {e : LogEntry}
    → IsConsecutive i es
    → get_last? es ≡ some e
    → e.index + 1 ≡ i + length es
get_last?-index i [] h q = cc
get_last?-index i (f ∷ []) h q = ground arith
get_last?-index i (f ∷ g ∷ es) {e} h q =
    omega (arith, get_last?-index (suc i) (g ∷ es) {e = e} h.1 q)

pub get_last?-none : (es : List LogEntry) → get_last? es ≡ none → length es ≡ 0
get_last?-none [] q = refl
get_last?-none (f ∷ []) q = cc
get_last?-none (f ∷ g ∷ es) q = absurd (omega (arith, get_last?-none (g ∷ es) q))

pub take_below-IsConsecutive :
    (i from : ℕ) (es : List LogEntry) → IsConsecutive i es → IsConsecutive i (take_below from es)
unfolding take_below
take_below-IsConsecutive i from [] h = h
take_below-IsConsecutive i from (e ∷ es) h =
    ground (arith, take_below-IsConsecutive (suc i) from es h.1)

pub length-take_below :
    (i from : ℕ) (es : List LogEntry)
    → IsConsecutive i es
    → i ≤ from
    → from ≤ i + length es
    → i + length (take_below from es) ≡ from
unfolding take_below
length-take_below i from [] h le ge = omega arith
length-take_below i from (e ∷ es) h le ge = elim (dec_lt i from) [
  | yes p ↦ ground (arith, length-take_below (suc i) from es h.1 p (omega arith))
  | no p ↦ ground arith
]

pub find_back-take_below :
    (i from j : ℕ) (es : List LogEntry)
    → IsConsecutive i es
    → find_back j (take_below from es) ≡ (if ltb j from then find_back j es else none)
unfolding find_back take_below
find_back-take_below i from j [] h = ground arith
find_back-take_below i from j (e ∷ es) h =
    ground (arith, find_back-take_below (suc i) from j es h.1, find_back-below (suc i) j es h.1)

pub drop_through-IsConsecutive :
    (i up_to : ℕ) (es : List LogEntry)
    → IsConsecutive i es
    → i ≤ suc up_to
    → IsConsecutive (suc up_to) (drop_through up_to es)
unfolding drop_through
drop_through-IsConsecutive i up_to [] h le = tt
drop_through-IsConsecutive i up_to (e ∷ es) h le = elim (Bool-cases (leb e.index up_to)) [
  | inl c ↦ rw c (drop_through-IsConsecutive (suc i) up_to es h.1 (ground arith))
  | inr c ↦ rw c (subst (λ k. IsConsecutive k (e ∷ es)) (ground arith) h)
]

pub find_back-drop_through :
    (i up_to j : ℕ) (es : List LogEntry)
    → IsConsecutive i es
    → find_back j (drop_through up_to es) ≡ (if leb j up_to then none else find_back j es)
unfolding find_back drop_through
find_back-drop_through i up_to j [] h = ground arith
find_back-drop_through i up_to j (e ∷ es) h =
    ground (arith, find_back-drop_through (suc i) up_to j es h.1, find_back-below (suc i) j es h.1)
