-- ===== src/Raft/LogFile/Replay.antt =====
-- log_store.go: a file that WALLogStore has written, and the log that it stands for.
use go_core_x.Prelude.{
  ℕ, ◌^◌, ◌<◌, ◌≡◌, refl, sym, ap, ◌∙◌, arith, Bool, true, inl, inr, List, [], ◌∷◌, ◌++◌,
  append-nil, length,
}
use go_core_x.Bytes.{Bytes}
use go_core_x.Bytes.Numbers.{length-put_le}
use go_core_x.Storage.Wal.{Record, encode_record, scan_all}
use go_core_x.Storage.Wal.Records.{IsWritable, IsChecksum}
use go_core_x.Storage.Wal.Scan.{
  encode_records, AreWritable, encode_records-append, AreWritable-append, scan_all-encode,
}
use go_core_x.Storage.Wal.Torn.{scan_all-torn}
use go_core_x.Storage.Writer.{Writer}
use go_core_x.Raft.Types.{LogEntry}
use go_core_x.Raft.Stores.{take_below}
use go_core_x.Raft.LogFile.{
  encode_log_entry, encode_truncate, Loaded, ok, err, replay_record, then_replay, replay,
  after_scan, load_all,
}
use go_core_x.Raft.LogFile.Codec.{
  IsStorable, length-fields, decode-encode_log_entry, decode-encode_truncate,
}

-- The file's records, and the log that they make, whether or not unknown records are refused.
pub record Holds (crc : Bytes → ℕ) (es : List LogEntry) (file : Bytes) : Type 0 where
  pub records : List Record
  pub written : file ≡ encode_records crc records
  pub writable : AreWritable records
  pub replayed : (strict : Bool) → replay strict [] records ≡ ok es

replay-append :
    (strict : Bool) (es : List LogEntry) (rs ss : List Record)
    → replay strict es (rs ++ ss) ≡ then_replay (λ es'. replay strict es' ss) (replay strict es rs)
unfolding replay
replay-append strict es [] ss = refl
replay-append strict es (r ∷ rs) ss =
    by (λ es'. replay-append strict es' rs ss) (replay_record strict es r.payload)
  where
    by :
        ((es' : List LogEntry)
          → replay strict es' (rs ++ ss)
            ≡ then_replay (λ es''. replay strict es'' ss) (replay strict es' rs))
        → (l : Loaded)
        → then_replay (λ es'. replay strict es' (rs ++ ss)) l
          ≡ then_replay (λ es'. replay strict es' ss) (then_replay (λ es'. replay strict es' rs) l)
    by later (ok es') = later es'
    by later (err e) = refl

replay_record-entry :
    (strict : Bool) (es : List LogEntry) (e : LogEntry)
    → IsStorable e
    → replay_record strict es (encode_log_entry e) ≡ ok (es ++ e ∷ [])
unfolding replay_record encode_log_entry
replay_record-entry strict es e s = rw (decode-encode_log_entry e s) refl

replay_record-truncate :
    (strict : Bool) (es : List LogEntry) (from : ℕ)
    → from < 2 ^ 63
    → replay_record strict es (encode_truncate from) ≡ ok (take_below from es)
unfolding replay_record encode_truncate
replay_record-truncate strict es from h = rw (decode-encode_truncate from h) refl

pub empty-Holds : (crc : Bytes → ℕ) → Holds crc [] []
unfolding replay
empty-Holds crc = record { records = []; written = refl; writable = tt; replayed = λ strict. refl }

-- One more record behind the file.
module _ {crc : Bytes → ℕ} {es : List LogEntry} {file : Bytes} (h : Holds crc es file) where
  snoc-Holds :
      (es' : List LogEntry) (r : Record)
      → IsWritable r
      → ((strict : Bool) → replay_record strict es r.payload ≡ ok es')
      → Holds crc es' (file ++ encode_record crc r)
  unfolding replay
  snoc-Holds es' r w step = record {
    records = h.records ++ r ∷ [];
    written =
        ap (λ l. l ++ encode_record crc r) h.written
        ∙ ap (λ l. encode_records crc h.records ++ l) (sym (append-nil (encode_record crc r)))
        ∙ sym (encode_records-append crc h.records (r ∷ []));
    writable = AreWritable-append h.records (r ∷ []) h.writable (w, tt);
    replayed = λ strict.
        replay-append strict [] h.records (r ∷ [])
        ∙ ap (then_replay (λ l. replay strict l (r ∷ []))) (h.replayed strict)
        ∙ ap (then_replay ok) (step strict);
  }

  -- What `LoadAll` and a compaction read of the file.
  pub scan_Holds :
      IsChecksum crc
      → (strict : Bool)
      → (let s = scan_all crc file in after_scan s.1 (replay strict [] s.0)) ≡ ok es
  scan_Holds small strict =
      rw (h.written, scan_all-encode crc small h.records h.writable) (h.replayed strict)

-- The record of an entry or of a truncation can be read back.
pub entry-IsWritable :
    (now : ℕ) (e : LogEntry)
    → now < 2 ^ 64
    → IsStorable e
    → IsWritable (record { timestamp = now; payload = encode_log_entry e })
unfolding encode_log_entry
entry-IsWritable now e t s = record { timestamp = t; size = omega (arith, s.size, length-fields e) }

pub truncate-IsWritable :
    (now from : ℕ)
    → now < 2 ^ 64
    → IsWritable (record { timestamp = now; payload = encode_truncate from })
unfolding encode_truncate
truncate-IsWritable now from t = record {
  timestamp = t;
  size = omega (arith, length-put_le 8 from);
}

-- A file that stands for a log.
module _ {crc : Bytes → ℕ} {es : List LogEntry} {file : Bytes} (h : Holds crc es file) where
  pub entry-Holds :
      (now : ℕ) (e : LogEntry)
      → now < 2 ^ 64
      → IsStorable e
      → Holds crc
          (es ++ e ∷ [])
          (file ++ encode_record crc (record { timestamp = now; payload = encode_log_entry e }))
  entry-Holds now e t s =
      snoc-Holds h (es ++ e ∷ []) _ (entry-IsWritable now e t s)
        λ strict. replay_record-entry strict es e s

  pub truncate-Holds :
      (now from : ℕ)
      → now < 2 ^ 64
      → from < 2 ^ 63
      → Holds crc
          (take_below from es)
          (file ++ encode_record crc (record { timestamp = now; payload = encode_truncate from }))
  truncate-Holds now from t f =
      snoc-Holds h (take_below from es) _ (truncate-IsWritable now from t)
        λ strict. replay_record-truncate strict es from f

-- A crash while a record is written behind a file that stands for a log: some bytes of the record, but not all, are
-- there. What is loaded then is that log.
pub load_all-torn :
    (crc : Bytes → ℕ)
    → IsChecksum crc
    → (es : List LogEntry) (w : Writer) (file : Bytes) → Holds crc es file
    → (r : Record) → IsWritable r
    → (front lost : Bytes) → encode_record crc r ≡ front ++ lost
    → 0 < length lost
    → w.file ≡ file ++ front
    → load_all crc w ≡ ok es
unfolding load_all
load_all-torn crc small es w file h r v front lost e pos f =
    rw (f, h.written)
      (elim (scan_all-torn crc small h.records h.writable r v front lost e pos) [
        | inl whole ↦ rw whole (h.replayed true)
        | inr cut ↦ rw cut (h.replayed true)
      ])
