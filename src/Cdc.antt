-- ===== src/Cdc.antt =====
-- change_log.go, `ChangeLog`: the history of recent changes and their delivery to subscribers. The
-- Prometheus counters are not modelled.
pub mod History
pub mod Delivery
pub mod Replay
mod Tests
use go_core_x.Prelude.{
  ℕ, suc, ◌+◌, String, Bool, true, false, not, Option, none, some, List, [], ◌∷◌, ◌++◌, Map, lookup,
  insert, select, length, drop, get_last?, leb, ltb, ◌==◌, nat_eq, if◌then◌else◌,
}

pub record ChangeEvent : Type 0 where
  pub event_type : String
  pub key : String
  pub value : String
  pub version : ℕ
  pub offset : ℕ
  pub timestamp : ℕ

-- A bounded channel: what waits in it, its capacity, and whether it is closed.
pub record Channel : Type 0 where
  pub buffer : List ChangeEvent
  pub capacity : ℕ
  pub is_closed : Bool

-- `subscribers` holds the ids of the map, whose channels are looked up in `channels`. A channel stays
-- there when its subscriber is removed, since a publisher may still hold it.
pub record ChangeLog : Type 0 where
  pub subscribers : List ℕ
  pub channels : Map ℕ Channel
  pub next_id : ℕ
  pub history : List ChangeEvent
  pub history_limit : ℕ
  pub base_offset : ℕ
  pub closed : Bool

abbrev pub default_history_limit : ℕ
default_history_limit = 1000

abbrev pub default_subscriber_buf_size : ℕ
default_subscriber_buf_size = 256

-- A size of 0 stands for any size that is not positive.
pub new_change_log : ℕ → ChangeLog
new_change_log history_limit = record {
  subscribers = [];
  channels = [];
  next_id = 0;
  history = [];
  history_limit = if leb history_limit 0 then default_history_limit else history_limit;
  base_offset = 0;
  closed = false;
}

-- `none` is ErrChangeLogClosed; otherwise the id.
pub subscribe : ℕ → ChangeLog → ChangeLog × Option ℕ
subscribe buf_size cl = if cl.closed then (cl, none) else (
  record cl {
    next_id = cl.next_id + 1;
    subscribers = (cl.next_id + 1) ∷ cl.subscribers;
    channels =
        insert (cl.next_id + 1)
          (record {
            buffer = [];
            capacity = if leb buf_size 0 then default_subscriber_buf_size else buf_size;
            is_closed = false;
          })
          cl.channels;
  },
  some (cl.next_id + 1),
)

pub close_channel : ℕ → Map ℕ Channel → Map ℕ Channel
close_channel id channels = elim (lookup id channels) [
  | none ↦ channels
  | some ch ↦ insert id (record ch { is_closed = true }) channels
]

pub is_subscribed : ℕ → List ℕ → Bool
is_subscribed id [] = false
is_subscribed id (i ∷ is) = if i == id then true else is_subscribed id is

pub unsubscribe : ℕ → ChangeLog → ChangeLog
unfolding close_channel is_subscribed
unsubscribe id cl =
    if is_subscribed id cl.subscribers
    then record cl {
      subscribers = select (λ i. not (i == id)) cl.subscribers;
      channels = close_channel id cl.channels;
    }
    else cl

-- `baseOffset` is set by the first event of an empty history.
pub base_with : ChangeEvent → List ChangeEvent → ℕ → ℕ
base_with ev [] base = ev.offset
base_with ev (_ ∷ _) base = base

-- The oldest event is evicted from a history that is too long.
pub evict : ℕ → List ChangeEvent → ℕ → List ChangeEvent × ℕ
evict limit h base =
    if ltb limit (length h)
    then (drop 1 h, elim (drop 1 h) [ [] ↦ base | e ∷ _ ↦ e.offset ])
    else (h, base)

pub remember : ChangeEvent → ChangeLog → ChangeLog
unfolding base_with evict
remember ev cl =
    let (kept, base) =
      evict cl.history_limit (cl.history ++ ev ∷ []) (base_with ev cl.history cl.base_offset) in
    record cl { history = kept; base_offset = base }

-- The part of `Publish` under the lock: the subscribers to deliver to, `none` once closed.
pub publish_record : ChangeEvent → ChangeLog → ChangeLog × Option (List ℕ)
publish_record ev cl =
    if cl.closed then (cl, none) else (remember ev cl, some (remember ev cl).subscribers)

-- The non-blocking send on a channel. `none` is the panic of a send on a closed channel.
pub send : ChangeEvent → Channel → Option Channel
send ev ch =
    if ch.is_closed
    then none
    else if ltb (length ch.buffer) ch.capacity
    then some (record ch { buffer = ch.buffer ++ ev ∷ [] })
    else some ch

-- The sends to the subscribers, after the lock has been released.
pub deliver : ChangeEvent → List ℕ → ChangeLog → Option ChangeLog
deliver ev [] cl = some cl
deliver ev (id ∷ ids) cl = elim (lookup id cl.channels) [
  | none ↦ deliver ev ids cl
  | some ch ↦ elim (send ev ch) [
    | none ↦ none
    | some ch' ↦ deliver ev ids (record cl { channels = insert id ch' cl.channels })
  ]
]

-- `Publish` with nothing in between its two parts.
pub publish : ChangeEvent → ChangeLog → Option ChangeLog
publish ev cl =
    let (cl', ids) = publish_record ev cl in
    elim ids [ none ↦ some cl' | some ids' ↦ deliver ev ids' cl' ]

-- `none` is ErrOffsetOutOfRange.
pub replay_from : ℕ → ChangeLog → Option (List ChangeEvent)
replay_from start cl = elim cl.history [
  | [] ↦ some []
  | e ∷ es ↦
      if ltb start cl.base_offset then none else some (select (λ ev. leb start ev.offset) (e ∷ es))
]

-- `none` stands for -1.
pub base_offset_of : ChangeLog → Option ℕ
base_offset_of cl = elim cl.history [ [] ↦ none | _ ∷ _ ↦ some cl.base_offset ]

pub latest_offset : ChangeLog → Option ℕ
latest_offset cl = elim (get_last? cl.history) [ none ↦ none | some ev ↦ some ev.offset ]

pub subscriber_count : ChangeLog → ℕ
subscriber_count cl = length cl.subscribers

close_all : List ℕ → Map ℕ Channel → Map ℕ Channel
unfolding close_channel
close_all [] channels = channels
close_all (id ∷ ids) channels = close_all ids (close_channel id channels)

pub close : ChangeLog → ChangeLog
unfolding close_all
close cl = if cl.closed then cl else record cl {
  closed = true;
  channels = close_all cl.subscribers cl.channels;
  subscribers = [];
}
