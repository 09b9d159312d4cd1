-- ===== src/Ingest/EventPool.antt =====
-- internal/infrastructure/pool/event_pool.go: the pool of event objects. An object is a number, and
-- `heap` its fields. Which free object sync.Pool hands out is decided outside, as is what it drops.
use go_core_x.Prelude.{ℕ, zero, suc, Option, none, some, List, [], ◌∷◌, ◌==◌, nat_eq, if◌then◌else◌}
use go_core_x.Storage.Events.{Event}

-- The zero value, which `Reset` restores.
abbrev pub blank_event : Event
blank_event = record { source = []; payload = []; received_at = 0 }

pub record EventPool : Type 0 where
  pub free : List ℕ
  pub next : ℕ
  pub heap : ℕ → Event

abbrev pub new_event_pool : EventPool
new_event_pool = record { free = []; next = 0; heap = λ _. blank_event }

-- An element by its place, and the others.
unfoldable pub pick : ℕ → List ℕ → Option (ℕ × List ℕ)
pick k [] = none
pick zero (x ∷ xs) = some (x, xs)
pick (suc k) (x ∷ xs) = elim (pick k xs) [ none ↦ none | some (y, ys) ↦ some (y, x ∷ ys) ]

-- Writing the fields of an object.
unfoldable pub set_fields : ℕ → Event → EventPool → EventPool
set_fields e fields p = record p { heap = λ j. if j == e then fields else p.heap j }

-- `Acquire`: a free object, or a new one where `k` names none.
unfoldable pub acquire : ℕ → EventPool → ℕ × EventPool
unfolding set_fields
acquire k p = elim (pick k p.free) [
  | some (e, rest) ↦ (e, record p { free = rest })
  | none ↦ (p.next, record (set_fields p.next blank_event p) { next = suc p.next })
]

-- `Release`
unfoldable pub release : ℕ → EventPool → EventPool
unfolding set_fields
release e p = let reset = set_fields e blank_event p in record reset { free = e ∷ reset.free }

-- sync.Pool drops a free object.
unfoldable pub collect : ℕ → EventPool → EventPool
collect k p = elim (pick k p.free) [ none ↦ p | some (e, rest) ↦ record p { free = rest } ]
