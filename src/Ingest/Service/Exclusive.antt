-- ===== src/Ingest/Service/Exclusive.antt =====
-- The objects of the events: no object is in two hands.
use go_core_x.Prelude.{
  ℕ, zero, suc, ◌+◌, ◌≤◌, ◌<◌, ◌≡◌, refl, ap, arith, Bool, Option-cases, Bool-cases, inl, inr, some,
  List, [], ◌∷◌, ◌++◌, length, count, ◌==◌, nat_eq, if◌then◌else◌, ltb,
}
use go_core_x.Storage.Events.{Event}
use go_core_x.Ingest.EventPool.{blank_event, pick, set_fields, acquire, release, collect}
use go_core_x.Ingest.WorkerPool.{
  receive-cases, shutdown-cases, submit, receive, finish, leave, shutdown,
}
use go_core_x.Ingest.Service.{
  System, begin, write, hand_over, released, Action, begins, writes, submits, receives, finishes,
  leaves, shuts_down, after_shutdown, collects, step,
}

-- How often an object stands in a list, and whether it is this one.
abbrev pub occurs : ℕ → List ℕ → ℕ
occurs e xs = count (λ x. x == e) xs

abbrev pub is_one : ℕ → ℕ → ℕ
is_one x e = if x == e then 1 else 0

pub is_one_refl : (e : ℕ) → is_one e e ≡ 1
is_one_refl e = ground arith

pub pick-occurs :
    (k : ℕ) (xs : List ℕ) {x : ℕ} {rest : List ℕ}
    → pick k xs ≡ some (x, rest)
    → (e : ℕ) → occurs e xs ≡ is_one x e + occurs e rest
unfolding pick
pick-occurs k [] h e = cc
pick-occurs zero (y ∷ xs) h e = ground (arith, h)
pick-occurs (suc k) (y ∷ xs) {x} {rest} h e = elim (Option-cases (pick k xs)) [
  | inl q ↦ cc (rw q at h)
  | inr ((z, zs), q) ↦ ground (arith, h, q, pick-occurs k xs {x = z} {rest = zs} q e)
]

pub occurs-snoc : (e x : ℕ) (xs : List ℕ) → occurs e (xs ++ x ∷ []) ≡ occurs e xs + is_one x e
occurs-snoc e x [] = omega arith
occurs-snoc e x (y ∷ xs) = omega (arith, occurs-snoc e x xs)

-- In how many places an object is.
abbrev pub places : ℕ → System → ℕ
places e s =
    occurs e s.pool.free
    + occurs e s.unwritten
    + occurs e s.unsubmitted
    + occurs e s.workers.job_ch
    + occurs e s.workers.working

pub record IsExclusive (s : System) : Type 0 where
  pub once : (e : ℕ) → places e s ≤ 1
  pub known : (e : ℕ) → s.pool.next ≤ e → places e s ≡ 0
  pub blank : (e : ℕ) → 0 < occurs e s.pool.free → s.pool.heap e ≡ blank_event

-- A step that only moves objects between hands.
moved-IsExclusive :
    (s s' : System)
    → s'.pool ≡ s.pool
    → ((e : ℕ) → places e s' ≤ places e s)
    → IsExclusive s
    → IsExclusive s'
moved-IsExclusive s s' p less x = record {
  once = λ e. omega (arith, less e, x.once e);
  known = λ e h. omega (arith, less e, x.known e (rw p at h));
  blank = λ e h. rw p (x.blank e (rw p at h));
}

-- A released object was in one hand, and is in none but the pool's now.
released-IsExclusive :
    (s s' : System) (x : ℕ)
    → s'.pool ≡ release x s.pool
    → ((e : ℕ) → places e s' ≡ places e s)
    → IsExclusive s
    → IsExclusive s'
unfolding release set_fields
released-IsExclusive s s' x p same y = record {
  once = λ e. omega (arith, same e, y.once e);
  known = λ e h. omega (arith, same e, y.known e (rw p at h));
  blank = λ e h. ground (arith, p, h, y.blank e);
}

write-IsExclusive : (ok : Bool) (k : ℕ) (s : System) → IsExclusive s → IsExclusive (write ok k s)
unfolding write release set_fields
write-IsExclusive ok k s x = elim (Option-cases (pick k s.unwritten)) [
  | inl q ↦ rw (write, q) x
  | inr ((e, rest), q) ↦
      let moved = pick-occurs k s.unwritten {x = e} {rest = rest} q in
      elim (Bool-cases ok) [
        | inl good ↦
            rw (write, q, good) (moved-IsExclusive s _ refl (λ j. omega (arith, moved j)) x)
        | inr bad ↦
            rw (write, q, bad) (released-IsExclusive s _ e refl (λ j. omega (arith, moved j)) x)
      ]
]

hand_over-IsExclusive : (k : ℕ) (s : System) → IsExclusive s → IsExclusive (hand_over k s)
unfolding hand_over submit release set_fields
hand_over-IsExclusive k s x = elim (Option-cases (pick k s.unsubmitted)) [
  | inl q ↦ rw (hand_over, q) x
  | inr ((e, rest), q) ↦
      let moved = pick-occurs k s.unsubmitted {x = e} {rest = rest} q in
      elim (Bool-cases s.workers.closed) [
        | inl shut ↦
            rw (hand_over, q, submit, shut)
              (moved-IsExclusive s _ refl (λ j. omega (arith, moved j)) x)
        | inr open_ ↦ elim (Bool-cases (ltb (length s.workers.job_ch) s.workers.capacity)) [
          | inl room ↦
              rw (hand_over, q, submit, open_, room)
                (moved-IsExclusive s _ refl
                  (λ j. omega (arith, moved j, occurs-snoc j e s.workers.job_ch)) x)
          | inr crowded ↦
              rw (hand_over, q, submit, open_, crowded)
                (released-IsExclusive s _ e refl (λ j. omega (arith, moved j)) x)
        ]
      ]
]

receive-IsExclusive :
    (s : System) → IsExclusive s → IsExclusive (record s { workers = receive s.workers })
receive-IsExclusive s x = elim (receive-cases s.workers) [
  | inl (q, _) ↦ rw q x
  | inr (e, rest, jobs, _, q) ↦
      rw q (moved-IsExclusive s _ refl (λ j. omega (arith, ap (occurs j) jobs)) x)
]

finish-IsExclusive :
    (k : ℕ) (s : System) → IsExclusive s → IsExclusive (released s (finish k s.pool.heap s.workers))
unfolding finish release set_fields
finish-IsExclusive k s x = elim (Option-cases (pick k s.workers.working)) [
  | inl q ↦ rw (finish, q) x
  | inr ((e, rest), q) ↦
      let moved = pick-occurs k s.workers.working {x = e} {rest = rest} q in
      rw (finish, q) (released-IsExclusive s _ e refl (λ j. omega (arith, moved j)) x)
]

begin-IsExclusive :
    (k : ℕ) (fields : Event) (s : System) → IsExclusive s → IsExclusive (begin k fields s)
unfolding begin acquire set_fields
begin-IsExclusive k fields s x = elim (Option-cases (pick k s.pool.free)) [
  | inl q ↦
      rw (begin, acquire, q)
        (record {
          once = λ e. ground (arith, x.once e, x.known e);
          known = λ e h. ground (arith, x.known e, h);
          blank = λ e h. ground (arith, x.known e, x.blank e, h);
        })
  | inr ((e, rest), q) ↦
      let moved = pick-occurs k s.pool.free {x = e} {rest = rest} q in
      rw (begin, acquire, q)
        (record {
          once = λ j. omega (arith, x.once j, moved j);
          known = λ j h. omega (arith, x.known j h, moved j);
          blank = λ j h. ground (arith, x.once j, x.blank j, moved j, h);
        })
]

collect-IsExclusive :
    (k : ℕ) (s : System) → IsExclusive s → IsExclusive (record s { pool = collect k s.pool })
unfolding collect
collect-IsExclusive k s x = elim (Option-cases (pick k s.pool.free)) [
  | inl q ↦ rw (collect, q) x
  | inr ((e, rest), q) ↦
      let moved = pick-occurs k s.pool.free {x = e} {rest = rest} q in
      rw (collect, q)
        (record {
          once = λ j. omega (arith, x.once j, moved j);
          known = λ j h. omega (arith, x.known j h, moved j);
          blank = λ j h. x.blank j (omega (arith, h, moved j));
        })
]

leave-IsExclusive :
    (s : System) → IsExclusive s → IsExclusive (record s { workers = leave s.workers })
unfolding leave
leave-IsExclusive s x = moved-IsExclusive s _ refl (λ j. ground arith) x

shutdown-IsExclusive :
    (s : System) → IsExclusive s → IsExclusive (after_shutdown s (shutdown s.workers))
shutdown-IsExclusive s x = elim (shutdown-cases s.workers) [
  | inl twice ↦ rw twice x
  | inr first ↦ rw first (moved-IsExclusive s _ refl (λ j. omega arith) x)
]

pub step-IsExclusive : (a : Action) (s : System) → IsExclusive s → IsExclusive (step a s)
unfolding step shutdown
step-IsExclusive (begins k fields) s x = begin-IsExclusive k fields s x
step-IsExclusive (writes ok k) s x = write-IsExclusive ok k s x
step-IsExclusive (submits k) s x = hand_over-IsExclusive k s x
step-IsExclusive receives s x = receive-IsExclusive s x
step-IsExclusive (finishes k) s x = finish-IsExclusive k s x
step-IsExclusive leaves s x = leave-IsExclusive s x
step-IsExclusive shuts_down s x = shutdown-IsExclusive s x
step-IsExclusive (collects k) s x = collect-IsExclusive k s x
