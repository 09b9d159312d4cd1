-- ===== src/Replication/Link/Prefix.antt =====
-- What the replica's file is of the primary's.
use go_core_x.Prelude.{
  ◌⊎◌, ℕ, zero, suc, ◌+◌, ◌≤◌, ◌≡◌, refl, sym, ap, ◌∙◌, arith, Bool, true, false, Bool-cases, inl,
  inr, Option, none, some, List, [], ◌∷◌, ◌++◌, append_assoc, append-nil, drop, length,
  length-append, ltb,
}
use go_core_x.Bytes.{Bytes, take}
use go_core_x.Bytes.Slices.{take-drop, drop_front}
use go_core_x.Storage.Wal.{Record, WalError, ReadRecord, read, end_of_file, failed, record_at}
use go_core_x.Storage.Writer.{Outcome, done, write_fails, sync_fails}
use go_core_x.Replication.Link.{
  wal_file, RawEntry, sends, stream_one, Link, new_link, connect, disconnect, streamed, stream_from,
  receive_next, Action, connects, disconnects, streams, grows, receives, compacts, step, run,
}

ReadRecord-cases :
    (v : ReadRecord)
    → ((r : Record) × (rest : Bytes) × (v ≡ read r rest))
      ⊎ ((v ≡ end_of_file) ⊎ ((e : WalError) × (v ≡ failed e)))
ReadRecord-cases (read r rest) = inl (r, rest, refl)
ReadRecord-cases end_of_file = inr (inl refl)
ReadRecord-cases (failed e) = inr (inr (e, refl))

length-take_le : (n : ℕ) (bs : Bytes) → length (take n bs) ≤ n
length-take_le zero bs = omega arith
length-take_le (suc n) [] = omega arith
length-take_le (suc n) (b ∷ bs) = omega (arith, length-take_le n bs)

-- The bytes that are on their way.
abbrev pub sent : List RawEntry → Bytes
sent [] = []
sent (e ∷ es) = e.raw_data ++ sent es

sent-append : (es : List RawEntry) (e : RawEntry) → sent (es ++ e ∷ []) ≡ sent es ++ e.raw_data
sent-append [] e = append-nil e.raw_data
sent-append (f ∷ es) e =
    ap (λ l. f.raw_data ++ l) (sent-append es e)
    ∙ sym (append_assoc f.raw_data (sent es) e.raw_data)

abbrev pub IsPrefix : Bytes → Bytes → Type 0
IsPrefix front whole = (rest : Bytes) × (whole ≡ front ++ rest)

-- Nothing was compacted, and the stream goes on where the replica's file and what is on its way end.
pub record IsInStep (l : Link) : Type 0 where
  pub same_file : l.stale ≡ none
  pub prefix : IsPrefix (l.replica ++ sent l.in_flight) l.primary
  pub at_end :
      (offset : ℕ) → l.offset ≡ some offset → offset ≡ length (l.replica ++ sent l.in_flight)

-- The action is no compaction.
abbrev pub IsPlain : Action → Type 0
IsPlain (compacts bytes) = ⊥
IsPlain _ = Unit {0}

abbrev pub ArePlain : List Action → Type 0
ArePlain [] = Unit {0}
ArePlain (a ∷ actions) = IsPlain a × ArePlain actions

shorter_prefix : (xs ys whole : Bytes) → IsPrefix (xs ++ ys) whole → IsPrefix xs whole
shorter_prefix xs ys whole (rest, q) = (ys ++ rest, q ∙ append_assoc xs ys rest)

inner_prefix :
    (xs ys zs whole : Bytes) → IsPrefix (xs ++ (ys ++ zs)) whole → IsPrefix (xs ++ ys) whole
inner_prefix xs ys zs whole (rest, q) = (
  zs ++ rest,
  q ∙ ap (λ b. b ++ rest) (sym (append_assoc xs ys zs)) ∙ append_assoc (xs ++ ys) zs rest,
)

prefix_of_replica : (l : Link) → IsInStep l → IsPrefix l.replica l.primary
prefix_of_replica l x = shorter_prefix l.replica (sent l.in_flight) l.primary x.prefix

-- A link without a connection, over a replica that is a prefix.
idle-IsInStep :
    (l : Link)
    → l.stale ≡ none
    → l.in_flight ≡ []
    → IsPrefix l.replica l.primary
    → ((offset : ℕ) → l.offset ≡ some offset → offset ≡ length l.replica)
    → IsInStep l
idle-IsInStep l same empty p e = record {
  same_file = same;
  prefix = rw (empty, append-nil l.replica) p;
  at_end = rw (empty, append-nil l.replica) e;
}

sends-IsInStep :
    (l : Link) (offset : ℕ) (raw : Bytes) (size : ℕ)
    → IsInStep l
    → l.offset ≡ some offset
    → raw ≡ take size (drop offset l.primary)
    → length raw ≡ size
    → IsInStep
        (streamed offset l (sends (record { offset = offset; raw_data = raw; record_size = size })))
sends-IsInStep l offset raw size x here q full =
    let front = l.replica ++ sent l.in_flight in
    let e : RawEntry = record { offset = offset; raw_data = raw; record_size = size } in
    let (rest, p) = x.prefix in
    let behind : drop offset l.primary ≡ rest =
      ap (drop offset) p ∙ drop_front offset front rest (sym (x.at_end offset here)) in
    let cut : rest ≡ raw ++ drop size rest =
      sym (take-drop size rest) ∙ ap (λ b. b ++ drop size rest) (sym (q ∙ ap (take size) behind)) in
    let grown : l.replica ++ sent (l.in_flight ++ e ∷ []) ≡ front ++ raw =
      ap (λ b. l.replica ++ b) (sent-append l.in_flight e)
      ∙ sym (append_assoc l.replica (sent l.in_flight) raw) in
    record {
      same_file = x.same_file;
      prefix = (
        drop size rest,
        p
            ∙ ap (λ b. front ++ b) cut
            ∙ sym (append_assoc front raw (drop size rest))
            ∙ ap (λ b. b ++ drop size rest) (sym grown),
      );
      at_end = λ o h.
          let moved : o ≡ offset + size = ground (arith, h) in
          omega
            (arith, moved, x.at_end offset here, full, ap length grown, length-append front raw);
    }

disconnect-IsInStep :
    (l : Link) → l.stale ≡ none → IsPrefix l.replica l.primary → IsInStep (disconnect l)
unfolding disconnect
disconnect-IsInStep l same p = idle-IsInStep (disconnect l) same refl p λ offset h. cc

stream_from-IsInStep :
    (crc : Bytes → ℕ) (l : Link) (offset : ℕ)
    → IsInStep l
    → l.offset ≡ some offset
    → IsInStep (streamed offset l (stream_one crc l.primary offset))
unfolding stream_one
stream_from-IsInStep crc l offset x here =
    elim (ReadRecord-cases (record_at crc l.primary offset)) [
      | inl (r, rest, q) ↦
          let size = 16 + length r.payload + 4 in
          elim (Bool-cases (ltb (length (take size (drop offset l.primary))) size)) [
            | inl short ↦
                rw (stream_one, q, short)
                  (disconnect-IsInStep l x.same_file (prefix_of_replica l x))
            | inr full ↦
                rw (stream_one, q, full)
                  (sends-IsInStep l offset (take size (drop offset l.primary)) size x here refl
                    (ground (arith, full, length-take_le size (drop offset l.primary))))
          ]
      | inr other ↦ elim other [
        | inl q ↦ rw (stream_one, q) x
        | inr (e, q) ↦
            rw (stream_one, q) (disconnect-IsInStep l x.same_file (prefix_of_replica l x))
      ]
    ]

next_prefix :
    (l : Link) (e : RawEntry) (es : List RawEntry)
    → l.in_flight ≡ e ∷ es
    → IsInStep l
    → IsPrefix (l.replica ++ e.raw_data) l.primary
next_prefix l e es q x =
    let (rest, p) = x.prefix in
    inner_prefix l.replica e.raw_data (sent es) l.primary
      (rest, p ∙ ap (λ f. (l.replica ++ sent f) ++ rest) q)

receive-IsInStep :
    (o : Outcome) (es : List RawEntry) (l : Link)
    → l.in_flight ≡ es
    → IsInStep l
    → IsInStep (receive_next o es l)
receive-IsInStep o [] l q x = x
receive-IsInStep done (e ∷ es) l q x =
    let moved : l.replica ++ sent l.in_flight ≡ (l.replica ++ e.raw_data) ++ sent es =
      ap (λ f. l.replica ++ sent f) q ∙ sym (append_assoc l.replica e.raw_data (sent es)) in
    record {
      same_file = x.same_file;
      prefix = rw moved at x.prefix;
      at_end = λ offset h. x.at_end offset h ∙ ap length moved;
    }
receive-IsInStep (write_fails n) (e ∷ es) l q x =
    let p = next_prefix l e es q x in
    disconnect-IsInStep (record l { replica = l.replica ++ take n e.raw_data }) x.same_file
      (inner_prefix l.replica (take n e.raw_data) (drop n e.raw_data) l.primary
        (rw (take-drop n e.raw_data) p))
receive-IsInStep sync_fails (e ∷ es) l q x =
    disconnect-IsInStep (record l { replica = l.replica ++ e.raw_data }) x.same_file
      (next_prefix l e es q x)

wal_file_same :
    (b : Bool) (stale : Option Bytes) (primary : Bytes)
    → stale ≡ none
    → wal_file b stale primary ≡ primary
wal_file_same true stale primary q = refl
wal_file_same false none primary q = refl
wal_file_same false (some old) primary q = cc

stream_turn :
    (crc : Bytes → ℕ) (o : Option ℕ) (l : Link)
    → l.offset ≡ o
    → IsInStep l
    → IsInStep (stream_from crc o l)
stream_turn crc none l q x = x
stream_turn crc (some offset) l q x =
    rw (wal_file_same l.reopened l.stale l.primary x.same_file)
      (stream_from-IsInStep crc l offset x q)

step-IsInStep :
    (crc : Bytes → ℕ) (a : Action) (l : Link) → IsPlain a → IsInStep l → IsInStep (step crc a l)
unfolding step connect
step-IsInStep crc connects l plain x =
    idle-IsInStep _ x.same_file refl (prefix_of_replica l x) λ offset h. ground (arith, h)
step-IsInStep crc disconnects l plain x = disconnect-IsInStep l x.same_file (prefix_of_replica l x)
step-IsInStep crc streams l plain x = stream_turn crc l.offset l refl x
step-IsInStep crc (grows bytes) l plain x =
    let (rest, p) = x.prefix in
    record {
      same_file = x.same_file;
      prefix = (rest ++ bytes, ap (λ b. b ++ bytes) p ∙ append_assoc _ rest bytes);
      at_end = x.at_end;
    }
step-IsInStep crc (receives o) l plain x = receive-IsInStep o l.in_flight l refl x
step-IsInStep crc (compacts bytes) l plain x = absurd plain

run-IsInStep :
    (crc : Bytes → ℕ) (actions : List Action) (l : Link)
    → ArePlain actions
    → IsInStep l
    → IsInStep (run crc actions l)
unfolding run
run-IsInStep crc [] l plain x = x
run-IsInStep crc (a ∷ actions) l plain x =
    run-IsInStep crc actions (step crc a l) plain.1 (step-IsInStep crc a l plain.0 x)

-- As long as the primary's file is not compacted, the replica's file is the beginning of the primary's, byte by
-- byte, if it was at first: whatever the order of writes, turns of the streamer, deliveries and lost connections, and
-- also where a write of the replica fails or leaves a part of an entry.
pub run-IsPrefix :
    (crc : Bytes → ℕ) (actions : List Action) (primary replica : Bytes)
    → ArePlain actions
    → IsPrefix replica primary
    → let l = run crc actions (new_link primary replica) in IsPrefix l.replica l.primary
run-IsPrefix crc actions primary replica plain p =
    prefix_of_replica (run crc actions (new_link primary replica)) (
      run-IsInStep crc actions (new_link primary replica) plain
        (idle-IsInStep (new_link primary replica) refl refl p λ offset h. cc))
