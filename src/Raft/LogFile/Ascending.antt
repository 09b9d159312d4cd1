-- ===== src/Raft/LogFile/Ascending.antt =====
-- A log in ascending order of its indices, under the operations of a log store.
use go_core_x.Prelude.{
  ℕ, ◌<◌, ◌≡◌, refl, ap, arith, true, false, Bool-cases, inl, inr, List, [], ◌∷◌, ◌++◌, select, ltb,
  leb,
}
use go_core_x.Raft.Types.{LogEntry}
use go_core_x.Raft.Stores.{take_below, drop_through}

abbrev pub Each : (LogEntry → Type 0) → List LogEntry → Type 0
Each P [] = Unit {0}
Each P (e ∷ es) = P e × Each P es

abbrev pub IsAscending : List LogEntry → Type 0
IsAscending [] = Unit {0}
IsAscending (e ∷ es) = Each (λ x. e.index < x.index) es × IsAscending es

module _ (P : LogEntry → Type 0) where
  pub Each-snoc : (es : List LogEntry) (e : LogEntry) → Each P es → P e → Each P (es ++ e ∷ [])
  Each-snoc [] e a p = (p, tt)
  Each-snoc (x ∷ es) e a p = (a.0, Each-snoc es e a.1 p)

  pub Each-take_below : (from : ℕ) (es : List LogEntry) → Each P es → Each P (take_below from es)
  unfolding take_below
  Each-take_below from [] a = tt
  Each-take_below from (e ∷ es) a = elim (Bool-cases (ltb e.index from)) [
    | inl below ↦ rw below (a.0, Each-take_below from es a.1)
    | inr out ↦ rw out tt
  ]

  pub Each-drop_through :
      (up_to : ℕ) (es : List LogEntry) → Each P es → Each P (drop_through up_to es)
  unfolding drop_through
  Each-drop_through up_to [] a = tt
  Each-drop_through up_to (e ∷ es) a = elim (Bool-cases (leb e.index up_to)) [
    | inl out ↦ rw out (Each-drop_through up_to es a.1)
    | inr above ↦ rw above a
  ]

pub IsAscending-snoc :
    (es : List LogEntry) (e : LogEntry)
    → IsAscending es
    → Each (λ x. x.index < e.index) es
    → IsAscending (es ++ e ∷ [])
IsAscending-snoc [] e a b = (tt, tt)
IsAscending-snoc (x ∷ es) e a b =
    (Each-snoc (λ y. x.index < y.index) es e a.0 b.0, IsAscending-snoc es e a.1 b.1)

pub IsAscending-take_below :
    (from : ℕ) (es : List LogEntry) → IsAscending es → IsAscending (take_below from es)
unfolding take_below
IsAscending-take_below from [] a = tt
IsAscending-take_below from (e ∷ es) a = elim (Bool-cases (ltb e.index from)) [
  | inl below ↦
      rw below
        (Each-take_below (λ x. e.index < x.index) from es a.0, IsAscending-take_below from es a.1)
  | inr out ↦ rw out tt
]

pub IsAscending-drop_through :
    (up_to : ℕ) (es : List LogEntry) → IsAscending es → IsAscending (drop_through up_to es)
unfolding drop_through
IsAscending-drop_through up_to [] a = tt
IsAscending-drop_through up_to (e ∷ es) a = elim (Bool-cases (leb e.index up_to)) [
  | inl out ↦ rw out (IsAscending-drop_through up_to es a.1)
  | inr above ↦ rw above a
]

select_all :
    (up_to n : ℕ) (es : List LogEntry)
    → up_to < n
    → Each (λ x. n < x.index) es
    → select (λ x. ltb up_to x.index) es ≡ es
select_all up_to n [] h a = refl
select_all up_to n (e ∷ es) h a =
    let keep : ltb up_to e.index ≡ true = ground (arith, a.0) in
    rw keep (ap (λ l. e ∷ l) (select_all up_to n es h a.1))

-- Of a log in ascending order a filter keeps what is left when the front is dropped.
pub select-ascending :
    (up_to : ℕ) (es : List LogEntry)
    → IsAscending es
    → select (λ x. ltb up_to x.index) es ≡ drop_through up_to es
unfolding drop_through
select-ascending up_to [] a = refl
select-ascending up_to (e ∷ es) a = elim (Bool-cases (leb e.index up_to)) [
  | inl out ↦
      let skip : ltb up_to e.index ≡ false = ground (arith, out) in
      rw (skip, out) (select-ascending up_to es a.1)
  | inr above ↦
      let keep : ltb up_to e.index ≡ true = ground (arith, above) in
      rw (keep, above) (ap (λ l. e ∷ l) (select_all up_to e.index es (ground (arith, above)) a.0))
]
