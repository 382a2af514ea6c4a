-- ===== src/Consumer/Examples.antt =====
-- Instances of the theorems on a consumer.
use rocketmq_proxy.Prelude.{
  get_elem?, All, true, List, [], ◌∷◌, bytes, ◌≡◌, refl, map, same, lex_less, nat_less, bytes_less,
  some, none, Option,
}
use rocketmq_proxy.StdMap
use rocketmq_proxy.Message.{MqMessageExt, consume_success, reconsume_later}
use rocketmq_proxy.Broker.{consume_from_last_offset}
use rocketmq_proxy.Locker.{
  ConsumerUnitLocker, new, start, add_msg, add_msgs, msg_unit, index_msg, is_done, scan, conclude,
  trigger_check, set_msg_status, mark_all, get_msg, take_front, release,
}
use rocketmq_proxy.Locker.Trigger.{all_acked}
use rocketmq_proxy.Locker.Marks.{contains}
use rocketmq_proxy.Locker.History.{Event, run, step, acks}
use rocketmq_proxy.Locker.Invariant.{new-IsValid}
use rocketmq_proxy.Consumer.{
  unlock_all, ConsumerUnit, set_msg_ack, ack_lockers, fetch, fetch_lockers, wait_lock, leave,
  report,
}
use rocketmq_proxy.Consumer.Routing.{set_msg_ack_lem, fetch_lem, any_knows, each, Fetches}
use rocketmq_proxy.Consumer.History.{
  UnitEvent, arrives, takes, acknowledges, unit_run, unit_step, leave-all_acked,
}
use rocketmq_proxy.Consumer.Released.{unlock_all_ends}
use rocketmq_proxy.Consumer.Rejected.{rejected_reported}
use rocketmq_proxy.Consumer.Report.{release_reports_success}

abbrev hello : MqMessageExt
hello = record {
  msg_id = bytes "m1";
  delay_time_level = 0;
  body = bytes "hello";
  topic = bytes "t";
}

abbrev idle_unit : ConsumerUnit
idle_unit = record {
  lockers = [];
  consumer = record {
    group_name = bytes "g";
    namesrv_addr = bytes "localhost:9876";
    consume_from_where = consume_from_last_offset;
    instance_name = bytes "RMQPROXY";
    subscribed_topic = bytes "t";
    sub_expression = bytes "*";
    consume_thread_count = 2;
    tcp_transport_pull_thread_num = 1;
    pull_msg_thread_pool_count = 1;
    max_cache_msg_size_per_queue = 128;
    tcp_transport_try_lock_timeout = 1000;
    tcp_transport_connect_timeout = 400;
    session_credentials = record { access_key = []; secret_key = []; channel = bytes "channel" };
  };
  last_active_at = 3;
}

-- A batch comes, its message is taken and acknowledged.
abbrev handled : List UnitEvent
handled =
    arrives 20 5 (bytes "g") ((9, hello) ∷ [])
    ∷ takes
    ∷ acknowledges (bytes "m1") consume_success
    ∷ []

-- What a callback takes with it, or a batch in its place.
abbrev left : ConsumerUnitLocker × ConsumerUnit
left = or_idle (leave 20 (unit_run idle_unit handled))
  where
    or_idle : Option (ConsumerUnitLocker × ConsumerUnit) → ConsumerUnitLocker × ConsumerUnit
    or_idle none = (start, idle_unit)
    or_idle (some r) = r

abbrev left_lem : leave 20 (unit_run idle_unit handled) ≡ some (left.0, left.1)
unfolding unit_run unit_step wait_lock fetch fetch_lockers set_msg_ack ack_lockers leave start new
    add_msgs add_msg msg_unit index_msg scan conclude trigger_check set_msg_status mark_all get_msg
    take_front StdMap.find StdMap.insert StdMap.place StdMap.assign StdMap.overwrite StdMap.erase
    same lex_less
left_lem = refl

leave-all_acked_example : (is_done left.0 ≡ true) × (all_acked left.0.client_status_map ≡ true)
leave-all_acked_example = leave-all_acked idle_unit handled 20 left.0 left.1 refl left_lem

-- Two batches, of which one message is taken, and none acknowledged.
abbrev waiting : List UnitEvent
waiting =
    arrives 20 5 (bytes "g") ((9, hello) ∷ [])
    ∷ arrives 21 5 (bytes "g") ((7, hello) ∷ [])
    ∷ takes
    ∷ []

unlock_all_ends_example :
    All (λ e. is_done e.1 ≡ true) (unlock_all (unit_run idle_unit waiting)).lockers
unlock_all_ends_example = unlock_all_ends idle_unit waiting refl

abbrev with_batch : ConsumerUnit
with_batch = wait_lock 20 (new 5 (bytes "g") ((9, hello) ∷ [])) idle_unit

set_msg_ack_lem_example : set_msg_ack (bytes "m1") reconsume_later with_batch ≡ (
  any_knows (bytes "m1") with_batch.lockers,
  record with_batch {
    lockers = each (λ l. step l (acks (bytes "m1") reconsume_later)) with_batch.lockers;
  },
)
set_msg_ack_lem_example = set_msg_ack_lem (bytes "m1") reconsume_later with_batch

fetch_lem_example :
    Fetches with_batch.lockers none
      (λ m ls. some (m, record with_batch { lockers = ls }))
      (fetch with_batch)
fetch_lem_example = fetch_lem with_batch

abbrev open_batch : ConsumerUnitLocker
open_batch = new 5 (bytes "g") ((9, hello) ∷ [])

release_reports_success_example :
    report (release open_batch) (hello ∷ [])
    ≡ (reconsume_later, map (λ _. consume_success) (hello ∷ []))
unfolding new start add_msgs add_msg all_acked StdMap.insert StdMap.place StdMap.find same
release_reports_success_example =
    release_reports_success open_batch (hello ∷ []) (new-IsValid 5 (bytes "g") ((9, hello) ∷ []))
      refl refl

abbrev world : MqMessageExt
world = record {
  msg_id = bytes "m2";
  delay_time_level = 3;
  body = bytes "world";
  topic = bytes "t";
}

-- The second message is rejected.
abbrev rejected_second : List Event
rejected_second =
    Event.fetches
    ∷ Event.fetches
    ∷ acks (bytes "m2") reconsume_later
    ∷ acks (bytes "m1") consume_success
    ∷ []

rejected_reported_example :
    let l = run (new 5 (bytes "g") ((9, hello) ∷ (4, world) ∷ [])) rejected_second in
    let (status, vector) = report l (hello ∷ world ∷ []) in
    (status ≡ reconsume_later) × (get_elem? vector 1 ≡ some reconsume_later)
unfolding run step contains new start add_msgs add_msg msg_unit index_msg scan conclude
    trigger_check set_msg_status mark_all get_msg take_front StdMap.find StdMap.insert StdMap.place
    StdMap.assign StdMap.overwrite same lex_less
rejected_reported_example =
    rejected_reported 5 (bytes "g") ((9, hello) ∷ (4, world) ∷ []) rejected_second 1 4 world
      (refl, (refl, tt)) (tt, (tt, (tt, (tt, tt)))) refl refl refl
