-- ===== src/Cdc/Replay.antt =====
-- change_log.go, `ReplayFrom`: a replay against all that was published.
use go_core_x.Prelude.{
  ℕ, zero, suc, ◌-◌, ◌≤◌, ◌<◌, Bool, true, false, some, List, [], ◌∷◌, ◌≡◌, refl, sym, ap, ◌∙◌, ◌⊎◌,
  arith, length, length-drop, drop, select, leb, ltb, if◌then◌else◌, inl, inr,
}
use go_core_x.Cdc.{ChangeEvent, ChangeLog, new_change_log, replay_from}
use go_core_x.Cdc.History.{last, IsHistory, publish_records, publish_records-IsHistory}

-- Every offset of the list is above `o`.
abbrev pub above : ℕ → List ChangeEvent → Bool
above o [] = true
above o (e ∷ es) = if ltb o e.offset then above o es else false

-- The offsets grow.
abbrev pub ascending : List ChangeEvent → Bool
ascending [] = true
ascending (e ∷ es) = if above e.offset es then ascending es else false

-- The events from an offset on.
abbrev pub from_offset : ℕ → List ChangeEvent → List ChangeEvent
from_offset start = select (λ ev. leb start ev.offset)

above-drop :
    (o k : ℕ) (evs : List ChangeEvent) (e : ChangeEvent) (es : List ChangeEvent)
    → above o evs ≡ true
    → drop k evs ≡ e ∷ es
    → o < e.offset
above-drop o zero [] e es h q = absurd (ground (arith, q))
above-drop o zero (x ∷ xs) e es h q = ground (arith, h, q)
above-drop o (suc k) [] e es h q = absurd (ground (arith, q))
above-drop o (suc k) (x ∷ xs) e es h q = above-drop o k xs e es (ground (arith, h)) q

from_offset-drop :
    (start k : ℕ) (evs : List ChangeEvent) (e : ChangeEvent) (es : List ChangeEvent)
    → ascending evs ≡ true
    → drop k evs ≡ e ∷ es
    → e.offset ≤ start
    → from_offset start evs ≡ from_offset start (drop k evs)
from_offset-drop start zero evs e es h q le = refl
from_offset-drop start (suc k) [] e es h q le = refl
from_offset-drop start (suc k) (x ∷ xs) e es h q le =
    let before : x.offset < e.offset = above-drop x.offset k xs e es (ground (arith, h)) q in
    let past : leb start x.offset ≡ false = ground (arith, before, le) in
    rw past (from_offset-drop start k xs e es (ground (arith, h)) q le)

replay_history :
    (start : ℕ) (cl : ChangeLog) (e : ChangeEvent) (es : List ChangeEvent)
    → cl.history ≡ e ∷ es
    → cl.base_offset ≤ start
    → replay_from start cl ≡ some (from_offset start (e ∷ es))
unfolding replay_from
replay_history start cl e es h le =
    let on : ltb start cl.base_offset ≡ false = ground (arith, le) in
    rw (h, replay_from) (rw on refl)

-- The first event of a history that holds the last events.
base_of_first :
    (cl : ChangeLog) (evs : List ChangeEvent) (e : ChangeEvent) (es : List ChangeEvent)
    → IsHistory evs cl
    → cl.history ≡ e ∷ es
    → cl.base_offset ≡ e.offset
base_of_first cl evs e es h q = rw q at h.base

List-cases :
    (evs : List ChangeEvent)
    → (evs ≡ []) ⊎ ((e : ChangeEvent) × (es : List ChangeEvent) × (evs ≡ e ∷ es))
List-cases [] = inl refl
List-cases (e ∷ es) = inr (e, es, refl)

none_kept : (n : ℕ) (evs : List ChangeEvent) → 0 < n → last n evs ≡ [] → evs ≡ []
none_kept n evs pos q = elim (List-cases evs) [
  | inl r ↦ r
  | inr (e, es, r) ↦
      let size = length-drop (length evs - n) evs in
      let empty : length (last n evs) ≡ 0 = ap length q in
      let some' : length evs ≡ suc (length es) = ap length r in
      absurd (omega (arith, size, empty, some'))
]

replay_empty : (start : ℕ) (cl : ChangeLog) → cl.history ≡ [] → replay_from start cl ≡ some []
unfolding replay_from
replay_empty start cl h = rw (h, replay_from) refl

replay_of_history :
    (start : ℕ) (cl : ChangeLog) (evs : List ChangeEvent)
    → IsHistory evs cl
    → ascending evs ≡ true
    → cl.base_offset ≤ start
    → replay_from start cl ≡ some (from_offset start evs)
replay_of_history start cl evs h up le = elim (List-cases cl.history) [
  | inl q ↦
      let e : evs ≡ [] = none_kept cl.history_limit evs h.positive (sym h.latest ∙ q) in
      replay_empty start cl q ∙ ap (λ l. some (from_offset start l)) (sym e)
  | inr (e, es, q) ↦
      let kept : last cl.history_limit evs ≡ e ∷ es = sym h.latest ∙ q in
      let first = base_of_first cl evs e es h q in
      replay_history start cl e es q le
      ∙ ap some (
          ap (from_offset start) (sym kept)
          ∙ sym (from_offset-drop start _ evs e es up kept (omega (arith, first, le))))
]

-- After events with growing offsets have been published to a new log, a replay from an offset that
-- is not below the base offset gives every event from this offset on that was ever published, in
-- order: what the limit has evicted is all older.
pub publish_records-replay :
    (limit start : ℕ) (evs : List ChangeEvent)
    → ascending evs ≡ true
    → (publish_records evs (new_change_log limit)).base_offset ≤ start
    → replay_from start (publish_records evs (new_change_log limit)) ≡ some (from_offset start evs)
publish_records-replay limit start evs up le =
    replay_of_history start (publish_records evs (new_change_log limit)) evs
      (publish_records-IsHistory limit evs) up le
