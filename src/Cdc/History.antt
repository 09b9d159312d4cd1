-- ===== src/Cdc/History.antt =====
-- change_log.go, `Publish`: the history that a sequence of publications leaves.
use mathlib.Core.Path.{subst}
use go_core_x.Prelude.{
  ℕ, zero, suc, ◌+◌, ◌-◌, ◌≤◌, ◌<◌, false, some, List, [], ◌∷◌, ◌++◌, ◌≡◌, refl, ap, ◌∙◌, sym,
  arith, length, length-append, length-drop, drop, ltb, if◌then◌else◌, Bool-cases, inl, inr,
  append_assoc, append-nil, drop-nil, drop-drop,
}
use go_core_x.Cdc.{
  ChangeEvent, ChangeLog, new_change_log, base_with, evict, remember, publish_record,
}

-- The last `n` items.
abbrev pub last : ℕ → List ChangeEvent → List ChangeEvent
last n evs = drop (length evs - n) evs

abbrev pub StartsAt : ℕ → List ChangeEvent → Type 0
StartsAt base [] = Unit {0}
StartsAt base (e ∷ es) = base ≡ e.offset

-- The base offset is that of the oldest event, and there is room for one event at least.
pub record IsHistory (evs : List ChangeEvent) (cl : ChangeLog) : Type 0 where
  pub positive : 0 < cl.history_limit
  pub latest : cl.history ≡ last cl.history_limit evs
  pub base : StartsAt cl.base_offset cl.history

last-short : (n : ℕ) (evs : List ChangeEvent) → length evs ≤ n → last n evs ≡ evs
last-short n evs h = let e : length evs - n ≡ 0 = omega arith in rw e

drop-append :
    (k : ℕ) (xs ys : List ChangeEvent) → k ≤ length xs → drop k (xs ++ ys) ≡ drop k xs ++ ys
drop-append zero xs ys h = refl
drop-append (suc k) [] ys h = absurd (omega arith)
drop-append (suc k) (x ∷ xs) ys h = drop-append k xs ys (omega arith)

-- The events after one more, in both cases of `remember`.
last-snoc :
    (n : ℕ) (evs : List ChangeEvent) (ev : ChangeEvent)
    → 0 < n
    → (if ltb n (length (last n evs ++ ev ∷ []))
        then drop 1 (last n evs ++ ev ∷ [])
        else last n evs ++ ev ∷ [])
      ≡ last n (evs ++ ev ∷ [])
last-snoc n evs ev pos =
    let start = length evs - n in
    let sum = length-append evs (ev ∷ []) in
    let size = length-append (last n evs) (ev ∷ []) in
    let rest = length-drop start evs in
    let joined : last n evs ++ ev ∷ [] ≡ drop start (evs ++ ev ∷ []) =
      sym (drop-append start evs (ev ∷ []) (omega arith)) in
    elim (Bool-cases (ltb n (length (last n evs ++ ev ∷ [])))) [
      | inl full ↦
          let e : start + 1 ≡ length (evs ++ ev ∷ []) - n = ground (arith, full, sum, size, rest) in
          rw full (ap (drop 1) joined ∙ drop-drop 1 start _ ∙ ap (λ k. drop k (evs ++ ev ∷ [])) e)
      | inr room ↦
          let e : start ≡ length (evs ++ ev ∷ []) - n = ground (arith, room, sum, size, rest) in
          rw room (joined ∙ ap (λ k. drop k (evs ++ ev ∷ [])) e)
    ]

evict-StartsAt :
    (limit base : ℕ) (h : List ChangeEvent)
    → StartsAt base h
    → StartsAt (evict limit h base).1 (evict limit h base).0
unfolding evict
evict-StartsAt limit base [] b = elim (Bool-cases (ltb limit 0)) [
  | inl full ↦ rw full tt
  | inr room ↦ rw room tt
]
evict-StartsAt limit base (x ∷ []) b = elim (Bool-cases (ltb limit 1)) [
  | inl full ↦ rw full tt
  | inr room ↦ rw room b
]
evict-StartsAt limit base (x ∷ y ∷ ys) b = elim (Bool-cases (ltb limit (length (x ∷ y ∷ ys)))) [
  | inl full ↦ rw full refl
  | inr room ↦ rw room b
]

base_with-StartsAt :
    (ev : ChangeEvent) (h : List ChangeEvent) (base : ℕ)
    → StartsAt base h
    → StartsAt (base_with ev h base) (h ++ ev ∷ [])
unfolding base_with
base_with-StartsAt ev [] base b = refl
base_with-StartsAt ev (x ∷ xs) base b = b

evict-history :
    (limit : ℕ) (h : List ChangeEvent) (base : ℕ)
    → (evict limit h base).0 ≡ (if ltb limit (length h) then drop 1 h else h)
unfolding evict
evict-history limit h base = ground arith

remember-opened :
    (ev : ChangeEvent) (cl : ChangeLog) → cl.closed ≡ false → (remember ev cl).closed ≡ false
unfolding remember
remember-opened ev cl h = h

-- One more event keeps the history.
remember-IsHistory :
    (ev : ChangeEvent) (cl : ChangeLog) (evs : List ChangeEvent)
    → IsHistory evs cl
    → IsHistory (evs ++ ev ∷ []) (remember ev cl)
unfolding remember
remember-IsHistory ev cl evs h = record {
  positive = h.positive;
  latest =
      evict-history cl.history_limit _ _
      ∙ (rw h.latest (last-snoc cl.history_limit evs ev h.positive));
  base =
      evict-StartsAt cl.history_limit _ _ (base_with-StartsAt ev cl.history cl.base_offset h.base);
}

-- A log to which events are published, one after another.
abbrev pub publish_records : List ChangeEvent → ChangeLog → ChangeLog
publish_records [] cl = cl
publish_records (ev ∷ evs) cl = publish_records evs (publish_record ev cl).0

record IsOpenHistory (evs : List ChangeEvent) (cl : ChangeLog) : Type 0 where
  history : IsHistory evs cl
  opened : cl.closed ≡ false

publish_record_open :
    (ev : ChangeEvent) (cl : ChangeLog)
    → cl.closed ≡ false
    → publish_record ev cl ≡ (remember ev cl, some cl.subscribers)
unfolding publish_record remember
publish_record_open ev cl h = ground arith

publish_record-IsOpenHistory :
    (ev : ChangeEvent) (cl : ChangeLog) (evs : List ChangeEvent)
    → IsOpenHistory evs cl
    → IsOpenHistory (evs ++ ev ∷ []) (publish_record ev cl).0
publish_record-IsOpenHistory ev cl evs h = rw (publish_record_open ev cl h.opened) (record {
  history = remember-IsHistory ev cl evs h.history;
  opened = remember-opened ev cl h.opened;
})

publish_records-IsOpenHistory :
    (new evs : List ChangeEvent) (cl : ChangeLog)
    → IsOpenHistory evs cl
    → IsOpenHistory (evs ++ new) (publish_records new cl)
publish_records-IsOpenHistory [] evs cl h = rw append-nil h
publish_records-IsOpenHistory (ev ∷ new) evs cl h =
    subst (λ l. IsOpenHistory l (publish_records new (publish_record ev cl).0))
      (append_assoc evs (ev ∷ []) new)
      (publish_records-IsOpenHistory new (evs ++ ev ∷ []) (publish_record ev cl).0
        (publish_record-IsOpenHistory ev cl evs h))

-- However many events are published to a new log, its history is the last of them, as many as
-- the limit allows, and the base offset is that of the oldest of these.
pub publish_records-IsHistory :
    (limit : ℕ) (evs : List ChangeEvent)
    → IsHistory evs (publish_records evs (new_change_log limit))
unfolding new_change_log
publish_records-IsHistory limit evs =
    (publish_records-IsOpenHistory evs [] (new_change_log limit) (record {
      history = record { positive = ground arith; latest = sym (drop-nil _); base = tt };
      opened = refl;
    })).history
