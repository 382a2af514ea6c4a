-- ===== src/Examples/Systems.antt =====
-- A history of the whole server: a client asks for a message, the broker brings one, the client gets
-- it and acknowledges it, and the broker's callback returns.
use rocketmq_proxy.Prelude.{
  true, List, [], ◌∷◌, ◌++◌, All, get_elem?, Option, none, some, bytes, same, lex_less, ◌≡◌, refl,
}
use rocketmq_proxy.Locker
use rocketmq_proxy.Locker.{ConsumerUnitLocker, is_done}
use rocketmq_proxy.Locker.Trigger.{all_acked}
use rocketmq_proxy.StdMap
use rocketmq_proxy.QueueTs
use rocketmq_proxy.MapTs
use rocketmq_proxy.Consumer
use rocketmq_proxy.Consumer.{ConsumerUnit, fetch, fetch_lockers, report}
use rocketmq_proxy.Logger
use rocketmq_proxy.World
use rocketmq_proxy.World.{
  World, Result, ok, fault, finish_consume, finish_consume_ack, get_is_fetch_msg_timeout,
  get_is_ack_timeout,
}
use rocketmq_proxy.Worker.{
  get_consumer, prepare_consumer, init_msg_queue, reset_consumer_active, write_log, new_consumer,
}
use rocketmq_proxy.Matcher.{fetch_and_consume, deliver, requeue}
use rocketmq_proxy.Server
use rocketmq_proxy.Calls.{response_msg, request_consume, request_consume_ack}
use rocketmq_proxy.Calls.Produce
use rocketmq_proxy.Calls.Consume
use rocketmq_proxy.Calls.ConsumeAck
use rocketmq_proxy.System.{
  Step, receives_consume, receives_ack, handles, matches, arrives, history, steps, step, depart,
  give_up,
}
use rocketmq_proxy.System.Safety.{departs-all_acked, give_up_frees}
use rocketmq_proxy.System.Served.Whole.{message_served}
use rocketmq_proxy.Examples.{
  late_broker, empty_world, hello, consuming, idle_unit, waiting_unit, consume_call, ack_call,
}

abbrev one_message : List Step
one_message =
    receives_consume 0 (record { topic = bytes "t"; consumer_group = bytes "g" })
    ∷ handles (record { type_ = request_consume; address = 0 }) true
    ∷ matches
    ∷ arrives 0 20 (bytes "g") ((9, hello) ∷ [])
    ∷ matches
    ∷ receives_ack 0
        (record { topic = bytes "t"; msg_id = bytes "m1"; consumer_group = bytes "g"; status = 0 })
    ∷ handles (record { type_ = request_consume_ack; address = 0 }) true
    ∷ []

abbrev world_of : {A : Type 0} → Result (A × World) → World
world_of (ok (a, w)) = w
world_of (fault e) = empty_world

abbrev value_of : Result (Option ConsumerUnitLocker × World) → Option ConsumerUnitLocker
value_of (ok (a, w)) = a
value_of (fault e) = none

abbrev end_world : World
end_world = world_of (history late_broker one_message empty_world)

abbrev left_batch : ConsumerUnitLocker
left_batch = or_start (value_of (depart 0 20 end_world))
  where
    or_start : Option ConsumerUnitLocker → ConsumerUnitLocker
    or_start none = Locker.start
    or_start (some l) = l

departs-all_acked_example :
    (is_done left_batch ≡ true) × (all_acked left_batch.client_status_map ≡ true)
unfolding history steps step Server.handle_rpcs Server.handle_events Consume.new ConsumeAck.new
    Produce.new Consume.proceed ConsumeAck.proceed QueueTs.new QueueTs.push QueueTs.try_pop
    get_consumer prepare_consumer init_msg_queue reset_consumer_active write_log Logger.write_log
    MapTs.new MapTs.try_get MapTs.insert MapTs.insert_or_update StdMap.find StdMap.insert
    StdMap.place StdMap.assign same lex_less fetch_and_consume deliver fetch fetch_lockers
    get_is_fetch_msg_timeout get_is_ack_timeout response_msg requeue Consumer.wait_lock
    Consumer.set_msg_ack Consumer.ack_lockers new_consumer Locker.new Locker.start Locker.add_msgs
    Locker.add_msg Locker.get_msg Locker.take_front Locker.index_msg Locker.set_msg_status
    Locker.trigger_check Consumer.leave depart Locker.msg_unit StdMap.overwrite
departs-all_acked_example =
    departs-all_acked late_broker empty_world end_world (world_of (depart 0 20 end_world))
      one_message 0 20 left_batch refl refl refl

-- A server with a request in its pool and a call that waits for an acknowledgement.
abbrev ready : World
ready = record (consuming idle_unit waiting_unit) {
  consume_msg_pool = record { data_queue = 0 ∷ [] };
  consume_ack_calls = ack_call ∷ [];
}

message_served_example :
    (w' : World) × (w'' : World) × (l : ConsumerUnitLocker) × (steps late_broker
        (arrives 0 20 (bytes "g") ((9, hello) ∷ [])
          ∷ matches
          ∷ receives_ack 0 (record {
            topic = bytes "t";
            msg_id = bytes "m1";
            consumer_group = bytes "g";
            status = 1;
          })
          ∷ handles (record { type_ = request_consume_ack; address = 0 }) true
          ∷ [])
        ready
      ≡ ok (tt, w'))
    × (w'.actions
        ≡ ((ready.actions
              ++ finish_consume 0
                  (record { code = 0; msg_id = bytes "m1"; body = bytes "hello"; error_msg = [] })
                ∷ [])
            ++ World.request_consume_ack 1 ∷ [])
          ++ finish_consume_ack 0
              (record { code = 0; msg_id = []; error_msg = bytes "msg ack succ!" })
            ∷ [])
    × (depart 0 20 w' ≡ ok (some l, w''))
    × (report l (hello ∷ []) ≡ (1, 1 ∷ []))
unfolding MapTs.try_get StdMap.find same lex_less new_consumer
message_served_example =
    message_served late_broker ready 0 20 9 0 0 (bytes "g") hello waiting_unit idle_unit
      consume_call ack_call 1 refl refl refl refl refl refl refl refl refl refl refl

-- The broker's message has come, and nobody has taken it.
abbrev one_batch : List Step
one_batch =
    receives_consume 0 (record { topic = bytes "t"; consumer_group = bytes "g" })
    ∷ handles (record { type_ = request_consume; address = 0 }) true
    ∷ matches
    ∷ arrives 0 20 (bytes "g") ((9, hello) ∷ [])
    ∷ []

abbrev batch_world : World
batch_world = world_of (history late_broker one_batch empty_world)

abbrev given_up_world : World
given_up_world = world_of (give_up 0 batch_world)

abbrev given_up_unit : ConsumerUnit
given_up_unit = or_idle (get_elem? given_up_world.consumer_units 0)
  where
    or_idle : Option ConsumerUnit → ConsumerUnit
    or_idle none = idle_unit
    or_idle (some u) = u

give_up_frees_example : All (λ e. is_done e.1 ≡ true) given_up_unit.lockers
unfolding history steps step Server.handle_rpcs Server.handle_events Consume.new ConsumeAck.new
    Produce.new Consume.proceed ConsumeAck.proceed QueueTs.new QueueTs.push QueueTs.try_pop
    get_consumer prepare_consumer init_msg_queue reset_consumer_active write_log Logger.write_log
    MapTs.new MapTs.try_get MapTs.insert MapTs.insert_or_update StdMap.find StdMap.insert
    StdMap.place StdMap.assign same lex_less fetch_and_consume deliver fetch fetch_lockers
    get_is_fetch_msg_timeout get_is_ack_timeout response_msg requeue Consumer.wait_lock
    Consumer.set_msg_ack Consumer.ack_lockers new_consumer Locker.new Locker.start Locker.add_msgs
    Locker.add_msg Locker.get_msg Locker.take_front Locker.index_msg Locker.set_msg_status
    Locker.trigger_check Consumer.leave depart Locker.msg_unit StdMap.overwrite give_up
    Consumer.unlock_all Consumer.unlock_lockers Locker.release Locker.release_loop
give_up_frees_example =
    give_up_frees late_broker empty_world batch_world given_up_world one_batch 0 given_up_unit refl
      refl refl refl
