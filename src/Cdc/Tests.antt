-- ===== src/Cdc/Tests.antt =====
-- A log with room for two events, and one with a subscriber.
use go_core_x.Prelude.{◌≤◌, arith, ℕ, true, none, some, [], ◌∷◌, ◌≡◌, refl}
use go_core_x.Cdc.{
  publish_record, replay_from, ChangeEvent, ChangeLog, new_change_log, subscribe, is_subscribed,
  unsubscribe, remember, deliver,
}
use go_core_x.Cdc.History.{publish_records}
use go_core_x.Cdc.Replay.{from_offset, publish_records-replay}
use go_core_x.Cdc.Delivery.{
  IsConnected, new-IsConnected, subscribe-IsConnected, deliver-unsubscribe,
}

abbrev set_at : ℕ → ChangeEvent
set_at offset = record {
  event_type = "set";
  key = "x";
  value = "1";
  version = offset;
  offset = offset;
  timestamp = 0;
}

abbrev followed : ChangeLog
followed = (subscribe 4 (new_change_log 2)).0

followed-IsConnected : IsConnected followed
followed-IsConnected = subscribe-IsConnected 4 (new_change_log 2) (new-IsConnected 2)

one_subscribed : is_subscribed 1 followed.subscribers ≡ true
unfolding new_change_log subscribe is_subscribed
one_subscribed = refl

deliver-unsubscribe_example :
    deliver (set_at 1) followed.subscribers (unsubscribe 1 (remember (set_at 1) followed)) ≡ none
deliver-unsubscribe_example =
    deliver-unsubscribe (set_at 1) 1 followed followed-IsConnected one_subscribed

two_left :
    (publish_records (set_at 1 ∷ set_at 2 ∷ set_at 3 ∷ []) (new_change_log 2)).base_offset ≤ 3
unfolding new_change_log publish_record remember
two_left = ground arith

publish_records-replay_example :
    replay_from 3 (publish_records (set_at 1 ∷ set_at 2 ∷ set_at 3 ∷ []) (new_change_log 2))
    ≡ some (from_offset 3 (set_at 1 ∷ set_at 2 ∷ set_at 3 ∷ []))
publish_records-replay_example =
    publish_records-replay 2 3 (set_at 1 ∷ set_at 2 ∷ set_at 3 ∷ []) refl two_left
