-- ===== src/Machine/Waiters.antt =====
-- Callers of `WaitForIndex`: a channel, known by a number, is registered for an index. Both state
-- machines keep such a map.
use go_core_x.Prelude.{
  ℕ, not, none, some, List, [], ◌∷◌, ◌++◌, Map, lookup, insert, delete, select, leb, ◌==◌, nat_eq,
  if◌then◌else◌, ◌≡◌, arith,
}

abbrev pub Waiters : Type 0
Waiters = Map ℕ (List ℕ)

-- waiters[index]; a missing key gives nil.
unfoldable pub waiting : ℕ → Waiters → List ℕ
waiting index w = elim (lookup index w) [ none ↦ [] | some chans ↦ chans ]

unfoldable pub register : ℕ → ℕ → Waiters → Waiters
unfolding waiting
register index ch w = insert index (waiting index w ++ ch ∷ []) w

-- The clean-up after a timeout: the channel is taken out, and the key with the last one.
unfoldable pub unregister : ℕ → ℕ → Waiters → Waiters
unfolding waiting
unregister index ch w =
    let filtered = select (λ c. not (c == ch)) (waiting index w) in
    elim filtered [ [] ↦ delete index w | c ∷ cs ↦ insert index (c ∷ cs) w ]

-- The channels for all indices up to `up_to`, and the waiters that are left.
unfoldable pub take_up_to : ℕ → Waiters → List ℕ × Waiters
take_up_to up_to [] = ([], [])
take_up_to up_to ((index, chans) ∷ w) =
    let rest = take_up_to up_to w in
    if leb index up_to then (chans ++ rest.0, rest.1) else (rest.0, (index, chans) ∷ rest.1)

-- The waiters that a restore leaves are those for later indices.
pub take_up_to-left :
    (up_to j : ℕ) (w : Waiters)
    → lookup j (take_up_to up_to w).1 ≡ (if leb j up_to then none else lookup j w)
unfolding take_up_to lookup
take_up_to-left up_to j [] = ground arith
take_up_to-left up_to j ((k, chans) ∷ w) = ground (arith, take_up_to-left up_to j w)
