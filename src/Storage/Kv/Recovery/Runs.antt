-- ===== src/Storage/Kv/Recovery/Runs.antt =====
-- raft_store.go: a sequence of writes and deletes, and the restart behind it.
use mathlib.Core.Path.{subst}
use go_core_x.Prelude.{
  ℕ, suc, ◌+◌, ◌≤◌, ◌<◌, ◌^◌, ◌≡◌, refl, sym, ap, ◌∙◌, arith, Bool, true, false, ◌&&◌, none, List,
  [], ◌∷◌, ◌++◌, append_assoc, append-nil, length, Map, lookup, insert, delete, ◌==◌,
}
use go_core_x.Bytes.{Bytes}
use go_core_x.Bytes.Equal.{bytes_eq}
use go_core_x.Storage.Wal.{Record, encode_record, scan_all}
use go_core_x.Storage.Wal.Records.{IsChecksum}
use go_core_x.Storage.Wal.Scan.{
  encode_records, AreWritable, encode_records-append, AreWritable-append, scan_all-encode,
}
use go_core_x.Storage.Writer.{SyncPolicy, all_done, done, new_writer}
use go_core_x.Storage.Writer.Done.{write_done, write_offset_done}
use go_core_x.Storage.Index.{get, remove, len}
use go_core_x.Storage.Index.Bounds.{
  set_room, length-set, length-remove, max_keys-set, max_keys-remove,
}
use go_core_x.Storage.Kv.{
  meta_key_last_applied, encode_kv_del, encode_kv_meta, Store, new_store, KvResult, ok,
  write_meta_locked, checkpoint, write_kv, delete_kv, get_kv, get_at, Recovering, whole,
  recover_records, recover_kv,
}
use go_core_x.Storage.Kv.Codec.{encode_kv_del-short}
use go_core_x.Storage.Kv.Offsets.{
  set_record, del_record, meta_record, IsCommand, stored, write_kv_done, set_record-IsWritable,
  meta_record-IsWritable,
}
use go_core_x.Storage.Kv.Recovery.{starting, expected, Recovered, recover_records-append}
use go_core_x.Storage.Kv.Recovery.Steps.{put-Recovered, del-Recovered}

-- A call of the store by the state machine.
pub data KvOp : Type 0 where
  put : Bytes → Bytes → ℕ → KvOp
  del : Bytes → ℕ → KvOp

abbrev pub map_step : KvOp → Map Bytes Bytes → Map Bytes Bytes
map_step (put key value i) m = insert key value m
map_step (del key i) m = delete key m

abbrev pub map_run : List KvOp → Map Bytes Bytes → Map Bytes Bytes
map_run [] m = m
map_run (op ∷ ops) m = map_run ops (map_step op m)

abbrev pub op_index : KvOp → ℕ
op_index (put key value i) = i
op_index (del key i) = i

-- The index of the last call.
abbrev pub last_index : List KvOp → ℕ → ℕ
last_index [] i = i
last_index (op ∷ ops) i = last_index ops (op_index op)

abbrev pub IsOp : KvOp → Type 0
IsOp (put key value i) = IsCommand key value i
IsOp (del key i) = IsCommand key [] i

abbrev pub AreOps : List KvOp → Type 0
AreOps [] = Unit {0}
AreOps (op ∷ ops) = IsOp op × AreOps ops

abbrev pub is_ok : KvResult → Bool
is_ok ok = true
is_ok _ = false

module _ (crc : Bytes → ℕ) (times : ℕ → ℕ) where
  abbrev pub store_step : KvOp → Store → Store × KvResult
  store_step (put key value i) s = write_kv crc times key value i s
  store_step (del key i) s = delete_kv crc times key i s

  -- The calls one after another, and whether all return nil.
  abbrev pub store_run : List KvOp → Store → Store × Bool
  store_run [] s = (s, true)
  store_run (op ∷ ops) s =
      let r = store_step op s in let rest = store_run ops r.0 in (rest.0, is_ok r.1 && rest.1)

-- A store in use: its file stands for a map and a last applied index, and its own index has at most
-- `size` keys.
record Logged (crc : Bytes → ℕ) (m : Map Bytes Bytes) (applied size max : ℕ) (s : Store)
    : Type 0 where
  works : (n : ℕ) → s.writer.outcomes n ≡ done
  fits : len s.index ≤ size
  bound : s.index.max_keys ≡ max
  records : List Record
  written : s.writer.file ≡ encode_records crc records
  writable : AreWritable records
  recovering : Recovering
  recovers : recover_records records (starting max) ≡ (recovering, whole)
  recovered : Recovered crc m applied size max s.writer.file recovering

-- The store after a delete that does not fail.
module _ (crc : Bytes → ℕ) (times : ℕ → ℕ) where
  abbrev deleted : Bytes → ℕ → Store → Store
  deleted key i s =
      let c = s.writer.calls in
      let bytes = encode_record crc (del_record crc times key i c) in
      record {
        index = remove key s.index;
        writer = record s.writer {
          file = (s.writer.file ++ bytes) ++ encode_record crc (meta_record crc times i (c + 1));
          size_tracker = s.writer.size_tracker + length bytes;
          calls = c + 1 + 1;
        };
        raft_last_applied = i;
      }

  delete_kv_done :
      (key : Bytes) (i : ℕ) (s : Store)
      → ((n : ℕ) → s.writer.outcomes n ≡ done)
      → (key == meta_key_last_applied) ≡ false
      → delete_kv crc times key i s ≡ (deleted key i s, ok)
  unfolding delete_kv checkpoint write_meta_locked
  delete_kv_done key i s works free =
      let bytes = encode_record crc (del_record crc times key i s.writer.calls) in
      let between = record s.writer {
        file = s.writer.file ++ bytes;
        size_tracker = s.writer.size_tracker + length bytes;
        calls = s.writer.calls + 1;
      } in
      rw
        (
          delete_kv,
          free,
          write_offset_done crc (times s.writer.calls) (encode_kv_del key i) s.writer works,
          write_done crc (times (s.writer.calls + 1)) (encode_kv_meta meta_key_last_applied i)
              between works,
        )
        refl

-- Two more records in the file.
two_written :
    (crc : Bytes → ℕ) (file : Bytes) (rs : List Record) (d p : Record)
    → file ≡ encode_records crc rs
    → (file ++ encode_record crc d) ++ encode_record crc p ≡ encode_records crc (rs ++ d ∷ p ∷ [])
two_written crc file rs d p h =
    append_assoc file (encode_record crc d) (encode_record crc p)
    ∙ ap (λ l. file ++ (encode_record crc d ++ l)) (sym (append-nil (encode_record crc p)))
    ∙ ap (λ l. l ++ encode_records crc (d ∷ p ∷ [])) h
    ∙ sym (encode_records-append crc rs (d ∷ p ∷ []))

module _ (crc : Bytes → ℕ) (small : IsChecksum crc) (times : ℕ → ℕ)
    (early : (n : ℕ) → times n < 2 ^ 64) where
  step-Logged :
      (op : KvOp) (m : Map Bytes Bytes) (applied size max : ℕ) (s : Store)
      → Logged crc m applied size max s
      → IsOp op
      → size + 1 ≤ max
      → (s' : Store) × (store_step crc times op s ≡ (s', ok))
        × Logged crc (map_step op m) (op_index op) (size + 1) max s'
  step-Logged (put key value i) m applied size max s g c room =
      let d = set_record crc times key value i s.writer.calls in
      let p = meta_record crc times i (s.writer.calls + 1) in
      let offset = s.writer.size_tracker in
      let (r, loop, rg) =
        put-Recovered crc small times early m applied size max s.writer.file g.recovering
          g.recovered key value i s.writer.calls c room in
      (
        stored crc times key value i s,
        write_kv_done crc times key value i s g.works c.user_key
            (set_room key offset s.index (omega (arith, g.fits, g.bound))),
        record {
          works = g.works;
          fits = omega (arith, g.fits, length-set key offset s.index);
          bound = max_keys-set key offset s.index ∙ g.bound;
          records = g.records ++ d ∷ p ∷ [];
          written = two_written crc s.writer.file g.records d p g.written;
          writable = AreWritable-append g.records (d ∷ p ∷ []) g.writable (
            set_record-IsWritable crc small times early key value i s.writer.calls c,
            (meta_record-IsWritable crc small times early i (s.writer.calls + 1), tt),
          );
          recovering = r;
          recovers =
              recover_records-append g.records (d ∷ p ∷ []) (starting max) g.recovering g.recovers
              ∙ loop;
          recovered = rg;
        },
      )
  step-Logged (del key i) m applied size max s g c room =
      let d = del_record crc times key i s.writer.calls in
      let p = meta_record crc times i (s.writer.calls + 1) in
      let (r, loop, rg) =
        del-Recovered crc small times early m applied size max s.writer.file g.recovering
          g.recovered key i s.writer.calls c in
      (
        deleted crc times key i s,
        delete_kv_done crc times key i s g.works c.user_key,
        record {
          works = g.works;
          fits = omega (arith, g.fits, length-remove key s.index);
          bound = max_keys-remove key s.index ∙ g.bound;
          records = g.records ++ d ∷ p ∷ [];
          written = two_written crc s.writer.file g.records d p g.written;
          writable = AreWritable-append g.records (d ∷ p ∷ []) g.writable (
            record {
              timestamp = early s.writer.calls;
              size = encode_kv_del-short key i c.key_size;
            },
            (meta_record-IsWritable crc small times early i (s.writer.calls + 1), tt),
          );
          recovering = r;
          recovers =
              recover_records-append g.records (d ∷ p ∷ []) (starting max) g.recovering g.recovers
              ∙ loop;
          recovered = rg;
        },
      )

  run-Logged :
      (ops : List KvOp) (m : Map Bytes Bytes) (applied size max : ℕ) (s : Store)
      → Logged crc m applied size max s
      → AreOps ops
      → size + length ops ≤ max
      → (s' : Store) × (store_run crc times ops s ≡ (s', true))
        × Logged crc (map_run ops m) (last_index ops applied) (size + length ops) max s'
  run-Logged [] m applied size max s g c room =
      let e : size ≡ size + 0 = omega arith in
      (s, refl, subst (λ n. Logged crc m applied n max s) e g)
  run-Logged (op ∷ ops) m applied size max s g c room =
      let (s1, first, g1) = step-Logged op m applied size max s g c.0 (omega arith) in
      let (s2, later, g2) =
        run-Logged ops (map_step op m) (op_index op) (size + 1) max s1 g1 c.1 (omega arith) in
      let e : size + 1 + length ops ≡ size + suc (length ops) = omega arith in
      (
        s2,
        rw (first, later) refl,
        subst
            (λ n. Logged crc (map_run ops (map_step op m)) (last_index ops (op_index op)) n max s2)
            e g2,
      )

  -- A store opened on the file of a store in use.
  recover_kv_done :
      (m : Map Bytes Bytes) (applied size max : ℕ) (policy : SyncPolicy) (s : Store)
      → (g : Logged crc m applied size max s)
      → let fresh = new_store max (new_writer s.writer.file policy all_done) in
        recover_kv crc fresh ≡ (
          record fresh {
            index = g.recovering.index;
            raft_last_applied = g.recovering.last_applied;
          },
          g.recovering.last_applied,
          whole,
        )
  unfolding recover_kv
  recover_kv_done m applied size max policy s g =
      let scanned : scan_all crc s.writer.file ≡ (g.records, none) =
        ap (scan_all crc) g.written ∙ scan_all-encode crc small g.records g.writable in
      rw (recover_kv, scanned, g.recovers) refl

  new_store-Logged :
      (max : ℕ) (policy : SyncPolicy)
      → Logged crc [] 0 0 max (new_store max (new_writer [] policy all_done))
  unfolding recover_records get
  new_store-Logged max policy = record {
    works = λ n. refl;
    fits = omega arith;
    bound = refl;
    records = [];
    written = refl;
    writable = tt;
    recovering = starting max;
    recovers = refl;
    recovered = record {
      offset = refl;
      last_applied = refl;
      fits = omega arith;
      bound = refl;
      finds = λ k more. unfold lookup in refl;
    };
  }

  -- After any writes and deletes by user keys, on a new store that has room for as many keys as there are calls and
  -- where nothing fails, all have returned nil. A store that is then opened on the same file recovers: it returns the
  -- index of the last call, keeps it as the last applied one, and finds of every key exactly the value that the calls
  -- have left to it, or that it is missing.
  pub recover_kv_lem :
      (ops : List KvOp) (max : ℕ) (policy : SyncPolicy)
      → AreOps ops
      → length ops ≤ max
      → let r = store_run crc times ops (new_store max (new_writer [] policy all_done)) in
        let file = r.0.writer.file in
        let back = recover_kv crc (new_store max (new_writer file policy all_done)) in
        (r.1 ≡ true)
        × (back.1 ≡ last_index ops 0)
        × (back.2 ≡ whole)
        × (back.0.raft_last_applied ≡ last_index ops 0)
        × ((k : Bytes) → get_kv crc k back.0 ≡ expected (lookup k (map_run ops [])))
  unfolding get_kv
  recover_kv_lem ops max policy c room =
      let fresh = new_store max (new_writer [] policy all_done) in
      let (s, run, g) =
        run-Logged ops [] 0 0 max fresh (new_store-Logged max policy) c (omega arith) in
      let r = g.recovered in
      rw (run, recover_kv_done (map_run ops []) (last_index ops 0) (0 + length ops) max policy s g)
        (
          refl,
          r.last_applied,
          refl,
          r.last_applied,
          λ k.
              ap (λ l. get_at crc l (get k g.recovering.index)) (sym (append-nil s.writer.file))
              ∙ r.finds k [],
        )
