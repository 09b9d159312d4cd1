-- ===== src/Replication/Link.antt =====
-- streamer.go, receiver.go, lag.go and client.go: the primary's file, the stream and the replica's file. How the
-- replica's writes end, and when the connection is lost, is decided outside.
pub mod Prefix
pub mod CaughtUp
mod Tests
use go_core_x.Prelude.{
  ℕ, ◌+◌, ◌-◌, Bool, true, false, Option, none, some, List, [], ◌∷◌, ◌++◌, drop, length, ltb,
  if◌then◌else◌,
}
use go_core_x.Bytes.{Bytes, take}
use go_core_x.Storage.Wal.{Record, read, end_of_file, failed, record_at}
use go_core_x.Storage.Writer.{Outcome, done, write_fails, sync_fails}

pub record RawEntry : Type 0 where
  pub offset : ℕ
  pub raw_data : Bytes
  pub record_size : ℕ

pub record ReplicationLag : Type 0 where
  pub primary_offset : ℕ
  pub replica_offset : ℕ
  pub reconnect_count : ℕ

abbrev pub new_replication_lag : ReplicationLag
new_replication_lag = record { primary_offset = 0; replica_offset = 0; reconnect_count = 0 }

-- `Bytes`: a negative difference counts as 0, as the subtraction of numbers does.
abbrev pub lag_bytes : ReplicationLag → ℕ
lag_bytes l = l.primary_offset - l.replica_offset

-- One turn of the loop of `Stream`.
pub data Streamed : Type 0 where
  sends : RawEntry → Streamed
  waits stops : Streamed

unfoldable pub stream_one : (Bytes → ℕ) → Bytes → ℕ → Streamed
stream_one crc file offset = elim (record_at crc file offset) [
  | read r rest ↦
      let size = 16 + length r.payload + 4 in
      let raw = take size (drop offset file) in
      if ltb (length raw) size
      then stops
      else sends (record { offset = offset; raw_data = raw; record_size = size })
  | end_of_file ↦ waits
  | failed e ↦ stops
]

-- `Append`: `true` for a nil error. The receiver writes and then syncs.
abbrev pub receive_entry : RawEntry → Outcome → Bytes → Bytes × Bool
receive_entry e done file = (file ++ e.raw_data, true)
receive_entry e (write_fails n) file = (file ++ take n e.raw_data, false)
receive_entry e sync_fails file = (file ++ e.raw_data, false)

-- Both ends: the streamer's offset while there is a connection, and what is on its way. A streamer
-- has the log file open from the start. After a compaction that is no longer the file under the
-- path, but `stale`; a stream that was there has opened the new file, which `reopened` says. Each
-- end is a process with a lag object of its own.
pub record Link : Type 0 where
  pub primary : Bytes
  pub stale : Option Bytes
  pub replica : Bytes
  pub offset : Option ℕ
  pub reopened : Bool
  pub in_flight : List RawEntry
  pub primary_lag : ReplicationLag
  pub replica_lag : ReplicationLag

abbrev pub new_link : Bytes → Bytes → Link
new_link primary replica = record {
  primary = primary;
  stale = none;
  replica = replica;
  offset = none;
  reopened = false;
  in_flight = [];
  primary_lag = new_replication_lag;
  replica_lag = new_replication_lag;
}

-- The end of `runOnce`, after which `Run` counts a reconnect.
unfoldable pub disconnect : Link → Link
disconnect l = record l {
  offset = none;
  in_flight = [];
  replica_lag = record l.replica_lag { reconnect_count = l.replica_lag.reconnect_count + 1 };
}

-- The start of `runOnce`: the stream begins at the size of the replica's file.
unfoldable pub connect : Link → Link
connect l = record l {
  offset = some (length l.replica);
  reopened = false;
  in_flight = [];
  replica_lag = record l.replica_lag { replica_offset = length l.replica };
}

abbrev pub streamed : ℕ → Link → Streamed → Link
streamed offset l (sends e) = record l {
  offset = some (offset + e.record_size);
  in_flight = l.in_flight ++ e ∷ [];
  primary_lag = record l.primary_lag { primary_offset = offset + e.record_size };
}
streamed offset l waits = l
streamed offset l stops = disconnect l

-- The file that the stream reads.
abbrev pub wal_file : Bool → Option Bytes → Bytes → Bytes
wal_file false (some old) primary = old
wal_file _ _ primary = primary

-- A turn of the streamer.
abbrev pub stream_from : (Bytes → ℕ) → Option ℕ → Link → Link
stream_from crc none l = l
stream_from crc (some offset) l =
    streamed offset l (stream_one crc (wal_file l.reopened l.stale l.primary) offset)

-- The streamer's answer to the notice of a compaction: it reads the new file from its start.
abbrev pub notified : Option ℕ → Option ℕ
notified none = none
notified (some offset) = some 0

-- The file that the streamer has open from the start.
abbrev pub first_file : Option Bytes → Bytes → Bytes
first_file none primary = primary
first_file (some old) primary = old

unfoldable pub compaction : Bytes → Link → Link
compaction bytes l = record l {
  primary = bytes;
  stale = some (first_file l.stale l.primary);
  offset = notified l.offset;
  reopened = true;
}

abbrev pub entry_taken : RawEntry → List RawEntry → Link → Bytes × Bool → Link
entry_taken e rest l (file, true) = record l {
  replica = file;
  in_flight = rest;
  replica_lag = record l.replica_lag { replica_offset = e.offset + e.record_size };
}
entry_taken e rest l (file, false) = disconnect (record l { replica = file })

-- The client takes the next entry.
abbrev pub receive_next : Outcome → List RawEntry → Link → Link
receive_next o [] l = l
receive_next o (e ∷ rest) l = entry_taken e rest l (receive_entry e o l.replica)

pub data Action : Type 0 where
  connects disconnects streams : Action
  grows : Bytes → Action
  receives : Outcome → Action
  compacts : Bytes → Action

pub step : (Bytes → ℕ) → Action → Link → Link
unfolding connect disconnect stream_one compaction
step crc connects l = connect l
step crc disconnects l = disconnect l
step crc streams l = stream_from crc l.offset l
step crc (grows bytes) l = record l { primary = l.primary ++ bytes }
step crc (receives o) l = receive_next o l.in_flight l
step crc (compacts bytes) l = compaction bytes l

-- Any order of events.
pub run : (Bytes → ℕ) → List Action → Link → Link
unfolding step
run crc [] l = l
run crc (a ∷ actions) l = run crc actions (step crc a l)
