-- ===== src/Examples/Matches.antt =====
-- Instances of the theorems on the matcher's rounds.
use rocketmq_proxy.Prelude.{
  true, false, [], ◌∷◌, ◌++◌, bytes, ◌≡◌, refl, set, bytes_less, same, lex_less, nat_less, arith,
  inl, inr,
}
use rocketmq_proxy.StdMap
use rocketmq_proxy.QueueTs
use rocketmq_proxy.MapTs
use rocketmq_proxy.Locker
use rocketmq_proxy.Locker.{msg_unit}
use rocketmq_proxy.Consumer.{ConsumerUnit, fetch, fetch_lockers, wait_lock}
use rocketmq_proxy.World.{
  World, ok, ConsumeMsgUnit, finish_consume, request_consume, get_is_fetch_msg_timeout,
}
use rocketmq_proxy.Worker.{new_consumer}
use rocketmq_proxy.Matcher.{match_unit, match_rounds}
use rocketmq_proxy.Matcher.Rounds.{
  match_unit_idle, match_rounds_busy, match_unit_timeout, ended_by_timeout, pooled_again,
}
use rocketmq_proxy.Matcher.Ends.{Ends}
use rocketmq_proxy.Matcher.Drained.{match_rounds_end}
use rocketmq_proxy.Calls.{response_timeout}
use rocketmq_proxy.Message.{consume_ack}
use rocketmq_proxy.Notify.{looking, waiting, matches, ticks, requests, turns}
use rocketmq_proxy.Notify.Missed.{missed_then_served, looks}
use rocketmq_proxy.Matcher.Deliveries.{match_unit_deliver, delivered}
use rocketmq_proxy.Examples.{
  late_broker, idle_unit, busy_unit, waiting_unit, delivered_unit, consume_call, consuming, hello,
}

abbrev delivering : World
delivering = consuming busy_unit waiting_unit

abbrev fetched_unit : ConsumerUnit
fetched_unit = record busy_unit {
  lockers = (20, record (Locker.new 5 (bytes "g") ((9, hello) ∷ [])) { fetched_arr = [] }) ∷ [];
}

match_unit_deliver_example :
    match_unit late_broker 0 delivering
    ≡ ok (
      tt,
      let w' =
            delivered delivering 0 0 waiting_unit fetched_unit consume_call
              (msg_unit 5 (bytes "g") hello) in
          record w' { consume_msg_pool = QueueTs.push delivering.consume_msg_pool 0 },
    )
unfolding MapTs.try_get StdMap.find StdMap.insert StdMap.place StdMap.assign same lex_less fetch
    fetch_lockers wait_lock new_consumer Locker.new Locker.start Locker.add_msgs Locker.add_msg
    Locker.get_msg Locker.take_front Locker.index_msg
match_unit_deliver_example =
    match_unit_deliver late_broker delivering 0 0 waiting_unit busy_unit fetched_unit consume_call
      (msg_unit 5 (bytes "g") hello) refl refl refl refl refl refl refl

abbrev late_unit : ConsumeMsgUnit
late_unit = record waiting_unit { last_active_at = 8 }

match_unit_timeout_example :
    let w = consuming idle_unit late_unit in
    match_unit late_broker 0 w
    ≡ ok (
      tt,
      record w {
        consumer_units = set w.consumer_units 0 (record idle_unit { last_active_at = w.now });
        consume_calls = set w.consume_calls 0 (ended_by_timeout consume_call);
        actions = w.actions ++ finish_consume 0 (ended_by_timeout consume_call).reply ∷ [];
      },
    )
unfolding MapTs.try_get StdMap.find same lex_less fetch fetch_lockers new_consumer
match_unit_timeout_example =
    match_unit_timeout late_broker (consuming idle_unit late_unit) 0 0 late_unit idle_unit
      consume_call refl refl refl refl refl (omega arith) refl refl

match_unit_idle_example :
    match_unit late_broker 0 (consuming idle_unit waiting_unit)
    ≡ ok (tt, pooled_again (consuming idle_unit waiting_unit) 0)
unfolding MapTs.try_get StdMap.find same lex_less fetch fetch_lockers new_consumer
    get_is_fetch_msg_timeout
match_unit_idle_example =
    match_unit_idle late_broker (consuming idle_unit waiting_unit) 0 0 waiting_unit idle_unit refl
      refl refl refl refl refl

abbrev lonely : World
lonely = record (consuming idle_unit waiting_unit) {
  consume_msg_pool = record { data_queue = 0 ∷ [] };
}

match_rounds_busy_example : match_rounds late_broker 1000 lonely ≡ ok (true, lonely)
unfolding MapTs.try_get StdMap.find same lex_less fetch fetch_lockers new_consumer
    get_is_fetch_msg_timeout
match_rounds_busy_example =
    match_rounds_busy late_broker lonely 0 0 waiting_unit idle_unit 1000 refl refl refl refl refl
      refl refl

-- A request that has waited too long, and a delivery that is acknowledged.
abbrev all_over : World
all_over = record (consuming idle_unit late_unit) {
  consume_msg_pool = record { data_queue = 0 ∷ 1 ∷ [] };
  consume_msg_units = late_unit ∷ record delivered_unit { status = consume_ack } ∷ [];
}

late_unit-Ends : Ends all_over 0
unfolding MapTs.try_get StdMap.find same lex_less new_consumer
late_unit-Ends = record {
  unit = late_unit;
  at_a = refl;
  consumer = 0;
  known = refl;
  u = idle_unit;
  at_consumer = refl;
  idle = refl;
  over = inr (inr (refl, omega arith, (consume_call, refl, refl)));
}

acked_unit-Ends : Ends all_over 1
unfolding MapTs.try_get StdMap.find same lex_less new_consumer
acked_unit-Ends = record {
  unit = record delivered_unit { status = consume_ack };
  at_a = refl;
  consumer = 0;
  known = refl;
  u = idle_unit;
  at_consumer = refl;
  idle = refl;
  over = inl refl;
}

match_rounds_end_example :
    (w' : World) × (match_rounds late_broker 3 all_over ≡ ok (false, w'))
    × (w'.consume_msg_pool ≡ QueueTs.new)
    × (w'.actions
        ≡ all_over.actions
          ++ finish_consume 0 (record {
            code = response_timeout;
            msg_id = consume_call.reply.msg_id;
            body = consume_call.reply.body;
            error_msg = bytes "get msg timeout";
          })
            ∷ [])
match_rounds_end_example =
    match_rounds_end late_broker (0 ∷ 1 ∷ []) all_over refl (late_unit-Ends, (acked_unit-Ends, tt))

-- A request comes to a server whose pool is empty, and that has a batch of one message.
missed_then_served_example :
    (w' : World) × (w'' : World) × (turns late_broker
        (matches ∷ requests 0 ∷ matches ∷ looks 5)
        looking
        delivering
      ≡ ok (waiting, w'))
    × (w'.consume_msg_pool ≡ record { data_queue = 1 ∷ [] })
    × (w'.actions ≡ delivering.actions ++ request_consume 1 ∷ [])
    × (turns late_broker
          ((matches ∷ requests 0 ∷ matches ∷ looks 5) ++ ticks ∷ matches ∷ [])
          looking
          delivering
        ≡ ok (looking, w''))
    × (turns late_broker (matches ∷ matches ∷ requests 0 ∷ matches ∷ []) looking delivering
        ≡ ok (looking, w''))
    × (w''.actions
        ≡ w'.actions
          ++ finish_consume 0
              (record { code = 0; msg_id = bytes "m1"; body = bytes "hello"; error_msg = [] })
            ∷ [])
unfolding MapTs.try_get StdMap.find StdMap.insert StdMap.place StdMap.assign same lex_less fetch
    fetch_lockers wait_lock new_consumer Locker.new Locker.start Locker.add_msgs Locker.add_msg
    Locker.get_msg Locker.take_front Locker.index_msg QueueTs.new msg_unit
missed_then_served_example =
    missed_then_served late_broker delivering 0 0 consume_call busy_unit fetched_unit
      (msg_unit 5 (bytes "g") hello) refl refl refl refl refl refl 5
