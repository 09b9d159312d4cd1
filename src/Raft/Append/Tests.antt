-- ===== src/Raft/Append/Tests.antt =====
-- A follower whose last entry conflicts with the leader's: it is replaced where the previous entry
-- agrees, and the message is refused where that does not.
use go_core_x.Prelude.{List, [], ◌∷◌, inr, arith, nat_eq, true, false, some, ◌≡◌, refl}
use go_core_x.Raft.Types.{LogEntry, AppendEntriesResult}
use go_core_x.Raft.Stores.{store_append, store_truncate_suffix}
use go_core_x.Raft.Membership.{append_entry}
use go_core_x.Raft.Node.{find_back, term_at}
use go_core_x.Raft.Node.Log.{IsWellFormed}
use go_core_x.Raft.Examples.{entry, externals, behind, replicate_two, mismatch}
use go_core_x.Raft.Append.{
  first_of_term, follow, raise_term, replicate_entries, append_entries, round, replace_suffix,
  store_entry, check_prev, handle_append_entries,
}
use go_core_x.Raft.Append.Accept.{
  IsAligned, IsAccepted, handle_append_entries-IsWellFormed, handle_append_entries-IsAccepted,
}
use go_core_x.Raft.Append.LogMatching.{Matches, IsFrom, handle_append_entries-Matches}

pub behind-IsWellFormed : IsWellFormed behind
behind-IsWellFormed = record { consecutive = (refl, (refl, tt)) }

replicate_two-IsAligned : IsAligned behind replicate_two
replicate_two-IsAligned = record { run = (refl, (refl, tt)); from_start = λ e. refl }

pub succeeds : (handle_append_entries externals behind replicate_two).1.success ≡ true
unfolding handle_append_entries check_prev term_at follow raise_term replicate_entries
    append_entries round replace_suffix store_truncate_suffix store_entry store_append append_entry
succeeds = refl

handle_append_entries-IsWellFormed_example :
    IsWellFormed (handle_append_entries externals behind replicate_two).0
handle_append_entries-IsWellFormed_example =
    handle_append_entries-IsWellFormed externals behind replicate_two behind-IsWellFormed
      replicate_two-IsAligned

handle_append_entries-IsAccepted_example :
    IsAccepted behind (handle_append_entries externals behind replicate_two).0 replicate_two
handle_append_entries-IsAccepted_example =
    handle_append_entries-IsAccepted externals behind replicate_two behind-IsWellFormed
      replicate_two-IsAligned succeeds

abbrev hint : AppendEntriesResult
hint = record { term = 1; success = false; conflict_index = 1; conflict_term = 1 }

hinted : check_prev behind mismatch ≡ some hint
unfolding check_prev term_at first_of_term
hinted = refl

abbrev sender_log : List LogEntry
sender_log = entry 1 1 ∷ entry 2 2 ∷ entry 3 2 ∷ []

-- The log of a third node.
abbrev short_log : List LogEntry
short_log = entry 1 1 ∷ entry 2 2 ∷ []

behind-Matches : Matches behind.log sender_log
unfolding find_back
behind-Matches j i a b d e qa qb t le qd qe = ground arith

sender_log-Matches : Matches sender_log short_log
unfolding find_back
sender_log-Matches j i a b d e qa qb t le qd qe = ground arith

short_log-Matches : Matches behind.log short_log
unfolding find_back
short_log-Matches j i a b d e qa qb t le qd qe = ground arith

replicate_two-IsFrom : IsFrom sender_log replicate_two
unfolding find_back
replicate_two-IsFrom = record {
  previous = inr (entry 1 1, refl, refl);
  entries = (refl, (refl, tt));
}

handle_append_entries-Matches_example :
    Matches (handle_append_entries externals behind replicate_two).0.log short_log
handle_append_entries-Matches_example =
    handle_append_entries-Matches externals behind replicate_two sender_log short_log
      behind-IsWellFormed replicate_two-IsAligned (refl, (refl, (refl, tt))) replicate_two-IsFrom
      behind-Matches sender_log-Matches short_log-Matches
