-- ===== src/Raft/Snapshots/Stream.antt =====
-- A snapshot on its way: client.go, `InstallSnapshot`, which cuts it into chunks, and server.go,
-- `InstallSnapshot`, which hands each chunk to the node.
use go_core_x.Prelude.{
  ℕ, zero, suc, ◌+◌, ◌≤◌, ◌<◌, ◌≡◌, refl, ap, ◌∙◌, arith, String, Bool, true, false, Bool-cases,
  inl, inr, some, List, [], ◌∷◌, ◌++◌, append_assoc, drop, length, length-drop, ltb, leb, ◌==◌,
  nat_eq, if◌then◌else◌, ◌&&◌,
}
use go_core_x.Bytes.{Bytes, take}
use go_core_x.Bytes.Slices.{take-drop, length-take, take_all}
use go_core_x.Raft.Types.{ClusterConfig, InstallSnapshotArgs}
use go_core_x.Raft.Config.{is_zero}
use go_core_x.Raft.SnapshotFile.{Decoded, decode_snapshot}
use go_core_x.Raft.Node.{Externals, RaftNode}
use go_core_x.Raft.Snapshots.{
  Machine, SnapshotExternals, SnapshotConfig, Installing, follow_snapshot, add_chunk,
  restore_config, install_state, is_covered, apply_snapshot, announced, finish_install,
  handle_install_snapshot, save_and_prune, max_of,
}
use go_core_x.Raft.Snapshots.Safe.{Keeps, Keeps-trans, follow_snapshot-Keeps, finish_install-Keeps}

-- What every message of one snapshot says.
pub record Announcement : Type 0 where
  pub term : ℕ
  pub leader_id : String
  pub index : ℕ
  pub snapshot_term : ℕ

abbrev pub chunk_message : Announcement → ℕ → Bytes → Bool → InstallSnapshotArgs
chunk_message a offset bytes done = record {
  term = a.term;
  leader_id = a.leader_id;
  last_included_index = a.index;
  last_included_term = a.snapshot_term;
  offset = offset;
  chunk = bytes;
  done = done;
}

-- The loop of the client over what is left of the bytes, in chunks of `k`. Each round takes one byte
-- at least, so that the length is fuel enough.
unfoldable pub chunks_from : Announcement → ℕ → ℕ → ℕ → Bytes → List InstallSnapshotArgs
chunks_from a k zero offset rest = []
chunks_from a k (suc fuel) offset rest =
    let others = chunks_from a k fuel (offset + length (take k rest)) (drop k rest) in
    if length rest == 0
    then []
    else chunk_message a offset (take k rest) (leb (length rest) k) ∷ others

abbrev pub chunks : Announcement → ℕ → Bytes → List InstallSnapshotArgs
chunks a k raw = chunks_from a k (length raw) 0 raw

module _ {S : Type 0} (m : Machine S) (x : Externals) (e : SnapshotExternals)
    (cfg : SnapshotConfig) where
  -- The loop of the server, which ends behind the last chunk.
  unfoldable pub receive : List InstallSnapshotArgs → Installing S → Installing S
  receive [] t = t
  receive (args ∷ rest) t =
      let next = (handle_install_snapshot m x e cfg args t).0 in
      let later = receive rest next in if args.done then next else later

  -- The node stands where the snapshot does, and its machine has been restored.
  pub record Installed (d : Decoded) (s : S) (n : RaftNode) (t : Installing S) : Type 0 where
    pub machine : t.machine ≡ some s
    pub log : t.node.log ≡ []
    pub snapshot_index : t.node.snapshot_index ≡ d.index
    pub snapshot_term : t.node.snapshot_term ≡ d.term
    pub buffer : t.buffer ≡ []
    pub keeps : Keeps n t.node

  restore_config-log :
      (c : ClusterConfig) (n : RaftNode)
      → ((restore_config x c n).log ≡ n.log)
        × ((restore_config x c n).snapshot_index ≡ n.snapshot_index)
        × ((restore_config x c n).snapshot_term ≡ n.snapshot_term)
  unfolding restore_config
  restore_config-log c n = elim (Bool-cases (is_zero c)) [
    | inl none_given ↦ rw (restore_config, none_given) (refl, refl, refl)
    | inr given ↦ rw (restore_config, given) (refl, refl, refl)
  ]

  -- A machine that has not come as far does not cover the snapshot.
  not_covered :
      (d : Decoded) (n : RaftNode) (s : S)
      → m.last_applied s < d.index
      → is_covered m x e cfg d n (some s) ≡ false
  unfolding is_covered
  not_covered d n s h = ground arith

  abbrev pub at_rest : RaftNode → S → Bytes → Installing S
  at_rest n s buf = record { node = n; machine = some s; buffer = buf }

  finish_install-Installed :
      (args : InstallSnapshotArgs) (bytes : Bytes) (d : Decoded) (s s' : S) (n : RaftNode)
      → announced m x e cfg args d ≡ true
      → decode_snapshot e.crc e.unmarshal_config bytes ≡ some d
      → m.last_applied s < d.index
      → m.restore_snapshot d.content d.index s ≡ (s', true)
      → Installed d s' n (finish_install m x e cfg args bytes (at_rest n s []))
  unfolding finish_install apply_snapshot install_state
  finish_install-Installed args bytes d s s' n a dec behind done =
      let t = at_rest n s [] in
      let kept = finish_install-Keeps m x e cfg args bytes t in
      let moved = record n {
        log = [];
        snapshot_index = d.index;
        snapshot_term = d.term;
        commit_index = max_of n.commit_index d.index;
        last_applied = max_of n.last_applied d.index;
      } in
      let same = restore_config-log d.content.config moved in
      let end : finish_install m x e cfg args bytes t ≡ record t {
        machine = some s';
        node = record (install_state x d n) {
          snapshot_store = (save_and_prune cfg d (install_state x d n).snapshot_store).0;
        };
      } =
        rw (finish_install, dec, a, apply_snapshot, not_covered d n s behind, done) refl in
      record {
        machine = ap (λ r. r.machine) end;
        log = ap (λ r. r.node.log) end ∙ same.0;
        snapshot_index = ap (λ r. r.node.snapshot_index) end ∙ same.1;
        snapshot_term = ap (λ r. r.node.snapshot_term) end ∙ same.2;
        buffer = ap (λ r. r.buffer) end;
        keeps = kept;
      }

  Installed-before :
      (d : Decoded) (s : S) (n n' : RaftNode) (t : Installing S)
      → Keeps n n'
      → Installed d s n' t
      → Installed d s n t
  Installed-before d s n n' t k i = record {
    machine = i.machine;
    log = i.log;
    snapshot_index = i.snapshot_index;
    snapshot_term = i.snapshot_term;
    buffer = i.buffer;
    keeps = Keeps-trans n n' t.node k i.keeps;
  }

  -- The last message, and one before it.
  receive_last :
      (a : Announcement) (offset : ℕ) (bytes buf : Bytes) (rest : List InstallSnapshotArgs)
      (n : RaftNode) (s : S)
      → n.current_term ≤ a.term
      → let args = chunk_message a offset bytes true in
        receive (args ∷ rest) (at_rest n s buf)
        ≡ finish_install m x e cfg args (add_chunk args buf) (at_rest (follow_snapshot args n) s [])
  unfolding receive handle_install_snapshot
  receive_last a offset bytes buf rest n s h =
      let new : ltb a.term n.current_term ≡ false = ground (arith, h) in
      rw (receive, handle_install_snapshot, new) refl

  receive_more :
      (a : Announcement) (offset : ℕ) (bytes buf : Bytes) (rest : List InstallSnapshotArgs)
      (n : RaftNode) (s : S)
      → n.current_term ≤ a.term
      → let args = chunk_message a offset bytes false in
        receive (args ∷ rest) (at_rest n s buf)
        ≡ receive rest (at_rest (follow_snapshot args n) s (add_chunk args buf))
  unfolding receive handle_install_snapshot
  receive_more a offset bytes buf rest n s h =
      let new : ltb a.term n.current_term ≡ false = ground (arith, h) in
      rw (receive, handle_install_snapshot, new) refl

  followed_term :
      (args : InstallSnapshotArgs) (n : RaftNode)
      → n.current_term ≤ args.term
      → (follow_snapshot args n).current_term ≤ args.term
  unfolding follow_snapshot
  followed_term args n h = ground (arith, h)

  module _ (a : Announcement) (k : ℕ) (some_bytes : 0 < k) (raw : Bytes) (d : Decoded) (s s' : S)
      (right : (d.index == a.index && d.term == a.snapshot_term) ≡ true)
      (dec : decode_snapshot e.crc e.unmarshal_config raw ≡ some d)
      (behind : m.last_applied s < d.index)
      (restored : m.restore_snapshot d.content d.index s ≡ (s', true)) where
    receive_rest :
        (fuel offset : ℕ) (rest buf : Bytes) (n : RaftNode)
        → length rest ≤ fuel
        → 0 < length rest
        → n.current_term ≤ a.term
        → (if offset == 0 then [] else buf) ++ rest ≡ raw
        → Installed d s' n (receive (chunks_from a k fuel offset rest) (at_rest n s buf))
    unfolding chunks_from
    receive_rest zero offset rest buf n f p t whole = absurd (omega arith)
    receive_rest (suc fuel) offset rest buf n f p t whole =
        let left : (length rest == 0) ≡ false = ground (arith, p) in
        let args = λ (done : Bool). chunk_message a offset (take k rest) done in
        let others = chunks_from a k fuel (offset + length (take k rest)) (drop k rest) in
        elim (Bool-cases (leb (length rest) k)) [
          | inl last ↦
              let node = follow_snapshot (args true) n in
              let all : take k rest ≡ rest = take_all k rest (ground (arith, last)) in
              let joined : add_chunk (args true) buf ≡ raw = rw all whole in
              rw
                (
                  chunks_from,
                  left,
                  last,
                  receive_last a offset (take k rest) buf others n s t,
                  joined,
                )
                (Installed-before d s' n node
                  (finish_install m x e cfg (args true) raw (at_rest node s []))
                  (follow_snapshot-Keeps (args true) n)
                  (finish_install-Installed (args true) raw d s s' node right dec behind restored))
          | inr more ↦
              let node = follow_snapshot (args false) n in
              let long : k < length rest = ground (arith, more) in
              let size = length-take k rest (omega arith) in
              let left' = length-drop k rest in
              let front : Bytes = if offset == 0 then [] else buf in
              let moved : (offset + length (take k rest) == 0) ≡ false = ground (arith, size) in
              let joined : (front ++ take k rest) ++ drop k rest ≡ raw =
                append_assoc front (take k rest) (drop k rest)
                ∙ ap (λ l. front ++ l) (take-drop k rest)
                ∙ whole in
              let later =
                receive_rest fuel (offset + length (take k rest)) (drop k rest)
                  (front ++ take k rest) node (omega arith) (omega arith)
                  (followed_term (args false) n t) (rw moved joined) in
              rw (chunks_from, left, more, receive_more a offset (take k rest) buf others n s t)
                (Installed-before d s' n node
                  (receive others (at_rest node s (front ++ take k rest)))
                  (follow_snapshot-Keeps (args false) n) later)
        ]

    -- A snapshot that a leader sends in chunks of any positive size, in a term that is not old for the follower, and
    -- that decodes to the announced index and term: once all chunks have arrived in their order, a follower whose
    -- machine has not come so far and can be restored has its machine restored and an empty log behind the snapshot,
    -- whatever its buffer held before; and what a message of a snapshot keeps is kept.
    pub receive-chunks-Installed :
        (n : RaftNode) (buf : Bytes)
        → 0 < length raw
        → n.current_term ≤ a.term
        → Installed d s' n (receive (chunks a k raw) (at_rest n s buf))
    receive-chunks-Installed n buf p t =
        receive_rest (length raw) 0 raw buf n (omega arith) p t refl
