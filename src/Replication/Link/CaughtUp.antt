-- ===== src/Replication/Link/CaughtUp.antt =====
-- What whole records become of on their way.
use go_core_x.Prelude.{
  ℕ, ◌+◌, ◌≡◌, refl, sym, ap, ◌⊎◌, inl, inr, ◌∙◌, arith, false, Option, none, some, List, [], ◌∷◌,
  ◌++◌, append_assoc, append-nil, drop, length, length-append, ltb,
}
use go_core_x.Bytes.{Bytes, take}
use go_core_x.Bytes.Slices.{take_front, drop_front}
use go_core_x.Storage.Wal.{Record, encode_record}
use go_core_x.Storage.Wal.Records.{IsChecksum, IsWritable, length-encode_record, record_at-encode}
use go_core_x.Storage.Wal.Scan.{encode_records, AreWritable}
use go_core_x.Storage.Writer.{done}
use go_core_x.Replication.Link.{
  RawEntry, ReplicationLag, sends, stream_one, Link, lag_bytes, wal_file, stream_from, streamed,
  receive_next, connect, compaction, notified, Action, connects, streams, receives, compacts, step,
  run,
}

-- A turn of the streamer and one of the client for each record.
abbrev pub turns : List Record → List Action
turns [] = []
turns (r ∷ rs) = streams ∷ receives done ∷ turns rs

-- The entry of a record.
abbrev entry_of : (Bytes → ℕ) → ℕ → Record → RawEntry
entry_of crc offset r = record {
  offset = offset;
  raw_data = encode_record crc r;
  record_size = 16 + length r.payload + 4;
}

-- A connection over which the rest of a file is yet to be sent.
record IsBehind (crc : Bytes → ℕ) (before : Bytes) (rs : List Record) (l : Link) : Type 0 where
  writable : AreWritable rs
  whole : l.primary ≡ before ++ encode_records crc rs
  file : wal_file l.reopened l.stale l.primary ≡ l.primary
  offset : l.offset ≡ some (length before)
  idle : l.in_flight ≡ []

wal_file_same :
    (stale : Option Bytes) (primary : Bytes) → stale ≡ none → wal_file false stale primary ≡ primary
wal_file_same none primary q = refl
wal_file_same (some old) primary q = cc

module _ (crc : Bytes → ℕ) (small : IsChecksum crc) where
  stream_one_record :
      (before rest : Bytes) (r : Record)
      → IsWritable r
      → stream_one crc (before ++ (encode_record crc r ++ rest)) (length before)
        ≡ sends (entry_of crc (length before) r)
  unfolding stream_one
  stream_one_record before rest r w =
      let bytes = encode_record crc r in
      let size = length-encode_record crc r in
      let raw : take (16 + length r.payload + 4) (drop (length before) (before ++ (bytes ++ rest)))
          ≡ bytes =
        ap (take (16 + length r.payload + 4))
          (drop_front (length before) before (bytes ++ rest) refl)
        ∙ take_front (16 + length r.payload + 4) bytes rest size in
      let full : ltb (length bytes) (16 + length r.payload + 4) ≡ false = ground (arith, size) in
      rw (stream_one, record_at-encode crc small before r w rest (length before) refl, raw, full)
        refl

  -- The link after both turns.
  abbrev copied : Bytes → Record → Link → Link
  copied before r l =
      let size = 16 + length r.payload + 4 in
      record l {
        replica = l.replica ++ encode_record crc r;
        offset = some (length before + size);
        in_flight = [];
        primary_lag = record l.primary_lag { primary_offset = length before + size };
        replica_lag = record l.replica_lag { replica_offset = length before + size };
      }

  both_turns :
      (before : Bytes) (r : Record) (rs : List Record) (l : Link)
      → IsBehind crc before (r ∷ rs) l
      → step crc (receives done) (step crc streams l) ≡ copied before r l
  unfolding step
  both_turns before r rs l x =
      let rest = encode_records crc rs in
      let e = entry_of crc (length before) r in
      let sent : stream_from crc l.offset l ≡ streamed (length before) l (sends e) =
        ap (λ o. stream_from crc o l) x.offset
        ∙ ap (λ f. streamed (length before) l (stream_one crc f (length before))) (x.file ∙ x.whole)
        ∙ ap (streamed (length before) l) (stream_one_record before rest r x.writable.0) in
      ap (λ k. receive_next done k.in_flight k) sent
      ∙ ap (λ f. receive_next done (f ++ e ∷ []) (streamed (length before) l (sends e))) x.idle

  IsBehind-next :
      (before : Bytes) (r : Record) (rs : List Record) (l : Link)
      → IsBehind crc before (r ∷ rs) l
      → IsBehind crc (before ++ encode_record crc r) rs (copied before r l)
  IsBehind-next before r rs l x = record {
    writable = x.writable.1;
    whole = x.whole ∙ sym (append_assoc before (encode_record crc r) (encode_records crc rs));
    file = x.file;
    offset =
        ap some
          (omega (arith, length-append before (encode_record crc r), length-encode_record crc r));
    idle = refl;
  }

  -- What the turns for all the records make of a connection.
  record IsCopied (before : Bytes) (rs : List Record) (l l' : Link) : Type 0 where
    replica : l'.replica ≡ l.replica ++ encode_records crc rs
    primary : l'.primary ≡ l.primary
    sent :
        (rs ≡ []) × (l'.primary_lag ≡ l.primary_lag)
        ⊎ (l'.primary_lag.primary_offset ≡ length before + length (encode_records crc rs))
    at_primary : l'.primary_lag.replica_offset ≡ l.primary_lag.replica_offset
    at_replica : l'.replica_lag.primary_offset ≡ l.replica_lag.primary_offset

  sent_next :
      (before : Bytes) (r : Record) (rs : List Record) (l l' : Link)
      → (rs ≡ []) × (l'.primary_lag ≡ (copied before r l).primary_lag)
        ⊎ (l'.primary_lag.primary_offset
            ≡ length (before ++ encode_record crc r) + length (encode_records crc rs))
      → l'.primary_lag.primary_offset ≡ length before + length (encode_records crc (r ∷ rs))
  sent_next before r rs l l' (inl (none_left, same)) =
      ap (λ (g : ReplicationLag). g.primary_offset) same
      ∙ rw none_left
          (omega (arith, length-encode_record crc r, length-append (encode_record crc r) []))
  sent_next before r rs l l' (inr q) = omega (
    arith,
    q,
    length-append before (encode_record crc r),
    length-append (encode_record crc r) (encode_records crc rs),
  )

  turns-IsCopied :
      (before : Bytes) (rs : List Record) (l : Link)
      → IsBehind crc before rs l
      → IsCopied before rs l (run crc (turns rs) l)
  unfolding run
  turns-IsCopied before [] l x = record {
    replica = sym (append-nil l.replica);
    primary = refl;
    sent = inl (refl, refl);
    at_primary = refl;
    at_replica = refl;
  }
  turns-IsCopied before (r ∷ rs) l x =
      let rest =
        turns-IsCopied (before ++ encode_record crc r) rs (copied before r l)
          (IsBehind-next before r rs l x) in
      rw (run, both_turns before r rs l x)
        (record {
          replica =
              rest.replica ∙ append_assoc l.replica (encode_record crc r) (encode_records crc rs);
          primary = rest.primary;
          sent = inr (sent_next before r rs l (run crc (turns rs) (copied before r l)) rest.sent);
          at_primary = rest.at_primary;
          at_replica = rest.at_replica;
        })

  -- A replica that has the beginning of a file of whole records, up to the end of a record, and connects, has the
  -- whole file after one turn of the streamer and one of the client for each record behind it, if nothing fails and
  -- nothing was compacted. The lag that the replica's process then shows is 0, and the one that the
  -- primary's shows is the whole file, if a record was sent: each has never set the other's offset.
  pub turns_catch_up :
      (rs : List Record)
      → AreWritable rs
      → (l : Link) → l.stale ≡ none
      → l.primary ≡ l.replica ++ encode_records crc rs
      → l.primary_lag.replica_offset ≡ 0
      → l.replica_lag.primary_offset ≡ 0
      → let l' = run crc (connects ∷ turns rs) l in
        (l'.replica ≡ l'.primary)
        × (l'.primary ≡ l.primary)
        × (lag_bytes l'.replica_lag ≡ 0)
        × ((rs ≡ []) ⊎ (lag_bytes l'.primary_lag ≡ length l'.primary))
  unfolding run step connect
  turns_catch_up rs w l same whole p0 r0 =
      let y = turns-IsCopied l.replica rs (connect l) (record {
        writable = w;
        whole = whole;
        file = wal_file_same l.stale l.primary same;
        offset = refl;
        idle = refl;
      }) in
      (
        y.replica ∙ sym whole ∙ sym y.primary,
        y.primary,
        omega (arith, y.at_replica, r0),
        elim y.sent [
          | inl (empty, _) ↦ inl empty
          | inr q ↦ inr (
              omega (
                arith,
                q,
                y.at_primary,
                p0,
                ap length y.primary,
                ap length whole,
                length-append l.replica (encode_records crc rs),
              ))
        ],
      )

  -- When the file is compacted while a replica is connected and nothing is on its way, the replica appends the whole
  -- new file to what it has, after one turn of the streamer and one of the client for each of its records.
  pub compaction_appended :
      (rs : List Record)
      → AreWritable rs
      → (l : Link) (offset : ℕ) → l.offset ≡ some offset
      → l.in_flight ≡ []
      → let l' = run crc (compacts (encode_records crc rs) ∷ turns rs) l in
        (l'.primary ≡ encode_records crc rs) × (l'.replica ≡ l.replica ++ l'.primary)
  unfolding run step compaction
  compaction_appended rs w l offset here empty =
      let y = turns-IsCopied [] rs (compaction (encode_records crc rs) l) (record {
        writable = w;
        whole = refl;
        file = refl;
        offset = ap notified here;
        idle = empty;
      }) in
      (y.primary, y.replica ∙ ap (λ b. l.replica ++ b) (sym y.primary))
