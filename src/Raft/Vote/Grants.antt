-- ===== src/Raft/Vote/Grants.antt =====
-- When a vote is granted, and what is then in place.
use go_core_x.Prelude.{
  ℕ, ◌<◌, ◌≤◌, String, true, false, ◌&&◌, ◌||◌, ◌≡◌, refl, ◌⊎◌, ◌↔◌, Option, none, some, arith,
  eq_iff, ltb, leb, ◌==◌, string_eq,
}
use go_core_x.Raft.Stores.{RaftMeta, MetaStore, save_meta}
use go_core_x.Raft.Node.{RaftNode, last_entry}
use go_core_x.Raft.Vote.{
  candidate_log_up_to_date, adopt_term, cast_vote, decide_vote, handle_request_vote,
}

-- A store, if there is one, holds this vote.
abbrev pub IsSaved : Option MetaStore → ℕ → String → Type 0
IsSaved none term c = Unit {0}
IsSaved (some s) term c = (s.meta.term ≡ term) × (s.meta.voted_for ≡ c)

-- No save fails.
abbrev pub IsReliable : Option MetaStore → Type 0
IsReliable none = Unit {0}
IsReliable (some s) = (k : ℕ) → s.fails k ≡ false

-- The order of logs by the term, then the index, of their last entries.
abbrev pub AtLeast : ℕ × ℕ → ℕ → ℕ → Type 0
AtLeast ours index term = (ours.1 < term) ⊎ ((ours.1 ≡ term) × (ours.0 ≤ index))

save_meta-IsSaved :
    (m : Option MetaStore) (term : ℕ) (c : String)
    → (save_meta m (record { term = term; voted_for = c })).1 ≡ true
    → IsSaved (save_meta m (record { term = term; voted_for = c })).0 term c
unfolding save_meta
save_meta-IsSaved none term c h = tt
save_meta-IsSaved (some s) term c h = ground arith

cast_vote-granted :
    (n : RaftNode) (c : String)
    → (cast_vote n c).2 ≡ true
    → ((cast_vote n c).0.voted_for ≡ c)
      × ((cast_vote n c).0.current_term ≡ n.current_term)
      × ((cast_vote n c).1 ≡ n.current_term)
      × IsSaved (cast_vote n c).0.meta n.current_term c
unfolding cast_vote
cast_vote-granted n c h = ground (arith, save_meta-IsSaved n.meta n.current_term c)

decide_vote-granted :
    (n : RaftNode) (c : String) (i t : ℕ)
    → (decide_vote n c i t).2 ≡ true
    → AtLeast (last_entry n) i t
      × ((decide_vote n c i t).0.voted_for ≡ c)
      × ((decide_vote n c i t).0.current_term ≡ n.current_term)
      × ((decide_vote n c i t).1 ≡ n.current_term)
      × IsSaved (decide_vote n c i t).0.meta n.current_term c
unfolding decide_vote candidate_log_up_to_date
decide_vote-granted n c i t h = ground (arith, cast_vote-granted n c)

last_entry-adopt_term : (term : ℕ) (n : RaftNode) → last_entry (adopt_term term n) ≡ last_entry n
unfolding last_entry adopt_term
last_entry-adopt_term term n = refl

adopt_term_fresh :
    (term : ℕ) (n : RaftNode)
    → ((adopt_term term n).current_term ≡ term) × ((adopt_term term n).voted_for ≡ "")
unfolding adopt_term
adopt_term_fresh term n = (refl, refl)

up_to_date-adopt_term :
    (term : ℕ) (n : RaftNode) (i t : ℕ)
    → candidate_log_up_to_date (adopt_term term n) i t ≡ candidate_log_up_to_date n i t
unfolding candidate_log_up_to_date adopt_term last_entry
up_to_date-adopt_term term n i t = refl

-- A granted vote is for the term of the request, which is not below the voter's. The candidate's log
-- is at least as up to date as the voter's, and the vote is recorded in the node and in the store.
pub vote_granted :
    (n : RaftNode) (term : ℕ) (c : String) (i t : ℕ)
    → (handle_request_vote n term c i t).2 ≡ true
    → (n.current_term ≤ term)
      × AtLeast (last_entry n) i t
      × ((handle_request_vote n term c i t).0.voted_for ≡ c)
      × ((handle_request_vote n term c i t).0.current_term ≡ term)
      × ((handle_request_vote n term c i t).1 ≡ term)
      × IsSaved (handle_request_vote n term c i t).0.meta term c
unfolding handle_request_vote
vote_granted n term c i t h = ground (
  arith,
  last_entry-adopt_term term n,
  adopt_term_fresh term n,
  decide_vote-granted n c i t,
  decide_vote-granted (adopt_term term n) c i t,
)

save_meta-IsReliable :
    (m : Option MetaStore) (v : RaftMeta)
    → IsReliable m
    → ((save_meta m v).1 ≡ true) × IsReliable (save_meta m v).0
unfolding save_meta
save_meta-IsReliable none v h = (refl, tt)
save_meta-IsReliable (some s) v h = rw (h s.calls) (refl, h)

decide_vote-reliable :
    (n : RaftNode) (c : String) (i t : ℕ)
    → IsReliable n.meta
    → (decide_vote n c i t).2
      ≡ (candidate_log_up_to_date n i t && (n.voted_for == "" || n.voted_for == c))
unfolding decide_vote cast_vote
decide_vote-reliable n c i t h =
    ground (arith, save_meta-IsReliable n.meta (record { term = n.current_term; voted_for = c }) h)

adopt_term-IsReliable :
    (term : ℕ) (n : RaftNode) → IsReliable n.meta → IsReliable (adopt_term term n).meta
unfolding adopt_term
adopt_term-IsReliable term n h = (save_meta-IsReliable n.meta _ h).1

vote_granted_as :
    (n : RaftNode) (term : ℕ) (c : String) (i t : ℕ)
    → IsReliable n.meta
    → (handle_request_vote n term c i t).2 ≡ (
        leb n.current_term term
        && (candidate_log_up_to_date n i t
            && (ltb n.current_term term || (n.voted_for == "" || n.voted_for == c))))
unfolding handle_request_vote
vote_granted_as n term c i t h = ground (
  arith,
  decide_vote-reliable n c i t h,
  decide_vote-reliable (adopt_term term n) c i t (adopt_term-IsReliable term n h),
  up_to_date-adopt_term term n i t,
  adopt_term_fresh term n,
  eq_iff (adopt_term term n).voted_for "",
)

up_to_date_iff :
    (n : RaftNode) (i t : ℕ) → (candidate_log_up_to_date n i t ≡ true) ↔ AtLeast (last_entry n) i t
unfolding candidate_log_up_to_date
up_to_date_iff n i t = (λ h. ground arith, λ h. ground arith)

-- While no save fails, a vote is granted exactly when the term is not below the voter's; the last
-- entry of the candidate's log has a later term than the voter's last entry, or the same term and an
-- index that is not lower; and the term is new, or the voter has given its vote in it to nobody or
-- to this candidate.
pub vote_granted_iff :
    (n : RaftNode) (term : ℕ) (c : String) (i t : ℕ)
    → IsReliable n.meta
    → ((handle_request_vote n term c i t).2 ≡ true) ↔ (
        (n.current_term ≤ term)
        × AtLeast (last_entry n) i t
        × ((n.current_term < term) ⊎ (n.voted_for ≡ "") ⊎ (n.voted_for ≡ c)))
vote_granted_iff n term c i t h = (
  λ g. ground (
    arith,
    g,
    vote_granted_as n term c i t h,
    up_to_date_iff n i t,
    eq_iff n.voted_for "",
    eq_iff n.voted_for c,
  ),
  λ g. ground (
    arith,
    g,
    vote_granted_as n term c i t h,
    up_to_date_iff n i t,
    eq_iff n.voted_for "",
    eq_iff n.voted_for c,
  ),
)
