-- ===== src/Machine/Mvcc/Reads.antt =====
-- mvcc_state_machine.go, `Get`: what a client reads after an entry has been applied.
use mathlib.Core.Path.{subst}
use go_core_x.Prelude.{
  ℕ, zero, suc, ◌+◌, ◌-◌, ◌<◌, String, true, false, not, ◌&&◌, Option, none, some, List, [], ◌∷◌,
  ◌++◌, ◌≡◌, refl, sym, ap, ◌∙◌, arith, eq_iff, lookup, Map, insert, lookup-insert, length, drop,
  get_last?, ltb, ◌==◌, nat_eq, string_eq, if◌then◌else◌, Bool-cases, inl, inr,
}
use go_core_x.Machine.Command.{RaftKvCommand}
use go_core_x.Machine.Mvcc.{
  MvccVersion, MvccStateMachine, versions_of, latest_of, notify_waiters, collect, write_version,
  is_conflict, apply_command, get,
}

get_last?-append : (vs : List MvccVersion) (v : MvccVersion) → get_last? (vs ++ v ∷ []) ≡ some v
get_last?-append [] v = refl
get_last?-append (u ∷ []) v = refl
get_last?-append (u ∷ w ∷ vs) v = get_last?-append (w ∷ vs) v

get_last?-drop :
    (n : ℕ) (vs : List MvccVersion) → n < length vs → get_last? (drop n vs) ≡ get_last? vs
get_last?-drop zero vs h = refl
get_last?-drop (suc n) [] h = absurd (omega arith)
get_last?-drop (suc zero) (v ∷ []) h = absurd (omega arith)
get_last?-drop (suc (suc n)) (v ∷ []) h = absurd (omega arith)
get_last?-drop (suc n) (v ∷ w ∷ vs) h = get_last?-drop n (w ∷ vs) (omega arith)

pub get_last?-collect :
    (retention : ℕ) (vs : List MvccVersion) → get_last? (collect retention vs) ≡ get_last? vs
unfolding collect
get_last?-collect retention vs = elim (Bool-cases (retention == 0)) [
  | inl q ↦ rw (collect, q) refl
  | inr q ↦ elim (Bool-cases (ltb retention (length vs))) [
    | inl p ↦ rw (collect, q, p) (get_last?-drop (length vs - retention) vs (ground (arith, p, q)))
    | inr p ↦ rw (collect, q, p) refl
  ]
]

abbrev pub visible : RaftKvCommand → Option String
visible cmd = if cmd.op == "del" then none else some cmd.value

self_eq : (k : String) → (k == k) ≡ true
self_eq k = ground (arith, eq_iff k k)

pub lookup-own :
    {V : Type 0} → (k : String) (v : V) (m : Map String V) → lookup k (insert k v m) ≡ some v
lookup-own k v m = rw (lookup-insert k k v m, self_eq k) refl

get-own :
    (cmd : RaftKvCommand) (index : ℕ) (sm : MvccStateMachine)
    → get cmd.key (write_version cmd index sm) ≡ (visible cmd, latest_of cmd.key sm + 1)
unfolding get write_version versions_of
get-own cmd index sm =
    rw
      (
        get,
        lookup-own cmd.key,
        versions_of,
        lookup-own cmd.key,
        get_last?-collect,
        get_last?-append,
      )
      refl

pub lookup-other :
    {V : Type 0}
    → (k j : String) (v : V) (m : Map String V) → (k == j) ≡ false
    → lookup j (insert k v m) ≡ lookup j m
lookup-other k j v m ne = rw (lookup-insert j k v m, ne) refl

abbrev read : Option ℕ → List MvccVersion → Option String × ℕ
read none vs = (none, 0)
read (some ver) vs = elim (get_last? vs) [
  | none ↦ (none, 0)
  | some v ↦ (if v.deleted then none else some v.value, ver)
]

abbrev listed : Option (List MvccVersion) → List MvccVersion
listed none = []
listed (some vs) = vs

get-read :
    (key : String) (sm : MvccStateMachine)
    → get key sm ≡ read (lookup key sm.latest) (listed (lookup key sm.versions))
unfolding get versions_of
get-read key sm = ground arith

pub get-same :
    (key : String) (sm sm' : MvccStateMachine)
    → lookup key sm'.latest ≡ lookup key sm.latest
    → lookup key sm'.versions ≡ lookup key sm.versions
    → get key sm' ≡ get key sm
get-same key sm sm' l v = rw (get-read key sm', get-read key sm, l, v) refl

get-other :
    (cmd : RaftKvCommand) (index : ℕ) (sm : MvccStateMachine) (key : String)
    → (cmd.key == key) ≡ false
    → get key (write_version cmd index sm) ≡ get key sm
unfolding write_version
get-other cmd index sm key ne =
    get-same key sm (write_version cmd index sm)
      (lookup-other cmd.key key (latest_of cmd.key sm + 1) sm.latest ne)
      (lookup-other cmd.key key _ sm.versions ne)

-- Notifying the waiters changes nothing that is read.
notify_waiters-get :
    (key : String) (index : ℕ) (sm : MvccStateMachine)
    → get key (notify_waiters index sm) ≡ get key sm
unfolding notify_waiters
notify_waiters-get key index sm = get-same key sm (notify_waiters index sm) refl refl

pub apply_conflict :
    (cmd : RaftKvCommand) (index now : ℕ) (sm : MvccStateMachine)
    → is_conflict cmd sm ≡ true
    → (apply_command cmd index now sm).0
      ≡ notify_waiters index
          (record sm { conflict_results = insert index (latest_of cmd.key sm) sm.conflict_results })
unfolding apply_command
apply_conflict cmd index now sm q = rw (apply_command, q) refl

pub apply_written :
    (cmd : RaftKvCommand) (index now : ℕ) (sm : MvccStateMachine)
    → is_conflict cmd sm ≡ false
    → (apply_command cmd index now sm).0 ≡ notify_waiters index (write_version cmd index sm)
unfolding apply_command
apply_written cmd index now sm q = rw (apply_command, q) refl

conflict-get :
    (cmd : RaftKvCommand) (index now : ℕ) (sm : MvccStateMachine) (key : String)
    → is_conflict cmd sm ≡ true
    → get key (apply_command cmd index now sm).0 ≡ get key sm
unfolding notify_waiters
conflict-get cmd index now sm key q =
    ap (get key) (apply_conflict cmd index now sm q)
    ∙ get-same key sm
        (notify_waiters index (record sm {
          conflict_results = insert index (latest_of cmd.key sm) sm.conflict_results;
        }))
        refl refl

written-get :
    (cmd : RaftKvCommand) (index now : ℕ) (sm : MvccStateMachine) (key : String)
    → is_conflict cmd sm ≡ false
    → get key (apply_command cmd index now sm).0 ≡ get key (write_version cmd index sm)
written-get cmd index now sm key q =
    ap (get key) (apply_written cmd index now sm q)
    ∙ notify_waiters-get key index (write_version cmd index sm)

read_after :
    (cmd : RaftKvCommand) (index now : ℕ) (sm : MvccStateMachine) (key : String)
    → get key (apply_command cmd index now sm).0 ≡ (
        if is_conflict cmd sm
        then get key sm
        else if cmd.key == key
        then (visible cmd, latest_of key sm + 1)
        else get key sm)
read_after cmd index now sm key = elim (Bool-cases (is_conflict cmd sm)) [
  | inl q ↦ conflict-get cmd index now sm key q ∙ (rw q refl)
  | inr q ↦ elim (Bool-cases (cmd.key == key)) [
    | inl p ↦
        let e = (eq_iff cmd.key key).0 p in
        written-get cmd index now sm key q ∙ rw (q, p, sym e) (get-own cmd index sm)
    | inr p ↦ written-get cmd index now sm key q ∙ rw (q, p) (get-other cmd index sm key p)
  ]
]

is_conflict_when :
    (cmd : RaftKvCommand) (sm : MvccStateMachine)
    → is_conflict cmd sm
      ≡ (ltb 0 cmd.expected_version && not (latest_of cmd.key sm == cmd.expected_version))
unfolding is_conflict
is_conflict_when cmd sm = ground arith

-- Where the command expects a version and it is not the latest one of its key, every key reads as
-- before. Otherwise the entry is read back under its key with the next version, a deletion as no
-- value, and every other key reads as before.
pub apply_command-get :
    (cmd : RaftKvCommand) (index now : ℕ) (sm : MvccStateMachine) (key : String)
    → get key (apply_command cmd index now sm).0 ≡ (
        if ltb 0 cmd.expected_version && not (latest_of cmd.key sm == cmd.expected_version)
        then get key sm
        else if cmd.key == key
        then (visible cmd, latest_of key sm + 1)
        else get key sm)
apply_command-get cmd index now sm key =
    subst
      (λ c. get key (apply_command cmd index now sm).0 ≡ (
        if c
        then get key sm
        else if cmd.key == key
        then (visible cmd, latest_of key sm + 1)
        else get key sm))
      (is_conflict_when cmd sm) (read_after cmd index now sm key)
