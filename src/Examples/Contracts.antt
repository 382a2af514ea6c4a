-- ===== src/Examples/Contracts.antt =====
-- A history in which gRPC and the client library keep their promises: a message is handed out and
-- acknowledged, and another is sent at the second try.
use rocketmq_proxy.Prelude.{
  All, ℕ, ◌≤◌, List, [], ◌∷◌, none, some, bytes, total, get_elem?, same, lex_less, ◌≡◌, arith, refl,
  true, false,
}
use rocketmq_proxy.Locker
use rocketmq_proxy.StdMap
use rocketmq_proxy.QueueTs
use rocketmq_proxy.MapTs
use rocketmq_proxy.Consumer
use rocketmq_proxy.Consumer.{fetch, fetch_lockers}
use rocketmq_proxy.Logger
use rocketmq_proxy.Broker.{Broker}
use rocketmq_proxy.World.{
  World, Result, ok, fault, process, get_is_fetch_msg_timeout, get_is_ack_timeout, ProduceCallData,
  ConsumeCallData, ConsumeAckCallData, new_consume_msg_unit,
}
use rocketmq_proxy.Worker
use rocketmq_proxy.Worker.{
  get_consumer, prepare_consumer, init_msg_queue, reset_consumer_active, write_log, new_consumer,
}
use rocketmq_proxy.Matcher.{fetch_and_consume, deliver, requeue}
use rocketmq_proxy.Server
use rocketmq_proxy.Calls.{response_msg, request_produce, request_consume, request_consume_ack}
use rocketmq_proxy.Calls.Produce
use rocketmq_proxy.Calls.Consume
use rocketmq_proxy.Calls.ConsumeAck
use rocketmq_proxy.System.{
  Step, receives_produce, receives_consume, receives_ack, handles, matches, arrives, departs,
  succeeds, fails, history, steps, step,
}
use rocketmq_proxy.System.Genuine.{IsGenuine, brought, replies-IsGenuine}
use rocketmq_proxy.System.Contract.{Obeys, Promised, after, Awaits, requested, finished, handled}
use rocketmq_proxy.System.Alive.Quiet.{Starts}
use rocketmq_proxy.System.Alive.Kinds.{produce_view, consume_view, ack_view}
use rocketmq_proxy.System.Alive.Started.{configured}
use rocketmq_proxy.System.Alive.Histories.{never_faults, answered_once, always_listens}
use rocketmq_proxy.Examples.{hello}

-- A broker whose client library starts all.
abbrev good_broker : Broker
good_broker = record {
  consumer_start = λ c now. true;
  producer_start = λ p now. true;
  send = λ msg now. none;
}

good_broker-Starts : Starts good_broker
good_broker-Starts = record { consumers = λ c now. refl; producers = λ p now. refl }

abbrev fresh : World
fresh = configured 5 [] [] [] []

abbrev kept : List Step
kept =
    receives_consume 0 (record { topic = bytes "t"; consumer_group = bytes "g" })
    ∷ handles (record { type_ = request_consume; address = 0 }) true
    ∷ matches
    ∷ arrives 0 20 (bytes "g") ((9, hello) ∷ [])
    ∷ matches
    ∷ handles (record { type_ = request_consume; address = 0 }) true
    ∷ receives_ack 0
        (record { topic = bytes "t"; msg_id = bytes "m1"; consumer_group = bytes "g"; status = 0 })
    ∷ handles (record { type_ = request_consume_ack; address = 0 }) true
    ∷ departs 0 20
    ∷ handles (record { type_ = request_consume_ack; address = 0 }) false
    ∷ receives_produce 0 (record {
      topic = bytes "t";
      group = bytes "g";
      tag = bytes "x";
      body = bytes "hi";
      delay_level = 0;
    })
    ∷ handles (record { type_ = request_produce; address = 0 }) true
    ∷ fails 0 (bytes "busy")
    ∷ succeeds 0 (bytes "m2")
    ∷ handles (record { type_ = request_produce; address = 0 }) true
    ∷ []

kept-Promised : Promised good_broker kept fresh
unfolding Obeys history steps step Server.handle_rpcs Server.handle_events Server.handle Consume.new
    ConsumeAck.new Produce.new Consume.proceed ConsumeAck.proceed ConsumeAck.cancel Produce.proceed
    Produce.on_failure Produce.on_success QueueTs.new QueueTs.push QueueTs.try_pop get_consumer
    prepare_consumer init_msg_queue reset_consumer_active write_log Logger.write_log MapTs.new
    MapTs.try_get MapTs.insert MapTs.insert_or_update MapTs.erase StdMap.find StdMap.insert
    StdMap.place StdMap.assign StdMap.erase same lex_less fetch_and_consume deliver fetch
    fetch_lockers get_is_fetch_msg_timeout get_is_ack_timeout response_msg requeue
    Consumer.wait_lock Consumer.set_msg_ack Consumer.ack_lockers Consumer.leave new_consumer
    Locker.new Locker.start Locker.add_msgs Locker.add_msg Locker.get_msg Locker.take_front
    Locker.index_msg Locker.set_msg_status Locker.trigger_check Locker.msg_unit StdMap.overwrite
    Worker.set_config Worker.produce new_consume_msg_unit
kept-Promised = omega arith

never_faults_example : (w' : World) × (history good_broker kept fresh ≡ ok (tt, w'))
never_faults_example = never_faults good_broker 5 [] [] [] [] kept good_broker-Starts kept-Promised

abbrev world_of : Result (Unit {0} × World) → World
world_of (ok (a, w)) = w
world_of (fault e) = fresh

abbrev end_world : World
end_world = world_of (history good_broker kept fresh)

kept_went : history good_broker kept fresh ≡ ok (tt, end_world)
unfolding history steps step Server.handle_rpcs Server.handle_events Server.handle Consume.new
    ConsumeAck.new Produce.new Consume.proceed ConsumeAck.proceed ConsumeAck.cancel Produce.proceed
    Produce.on_failure Produce.on_success QueueTs.new QueueTs.push QueueTs.try_pop get_consumer
    prepare_consumer init_msg_queue reset_consumer_active write_log Logger.write_log MapTs.new
    MapTs.try_get MapTs.insert MapTs.insert_or_update MapTs.erase StdMap.find StdMap.insert
    StdMap.place StdMap.assign StdMap.erase same lex_less fetch_and_consume deliver fetch
    fetch_lockers get_is_fetch_msg_timeout get_is_ack_timeout response_msg requeue
    Consumer.wait_lock Consumer.set_msg_ack Consumer.ack_lockers Consumer.leave new_consumer
    Locker.new Locker.start Locker.add_msgs Locker.add_msg Locker.get_msg Locker.take_front
    Locker.index_msg Locker.set_msg_status Locker.trigger_check Locker.msg_unit StdMap.overwrite
    Worker.set_config Worker.produce new_consume_msg_unit
kept_went = refl

answered_once_example :
    (total (requested request_produce 0) end_world.actions ≤ 1)
    × (total (finished request_produce 0) end_world.actions
        ≤ total (requested request_produce 0) end_world.actions)
    × (total (finished request_produce 0) end_world.actions
        ≤ total (handled request_produce 0) (after [] kept))
answered_once_example =
    answered_once good_broker 5 [] [] [] [] kept end_world good_broker-Starts kept-Promised
      kept_went request_produce 0

always_listens_example :
    ((n : ℕ) × (c : ProduceCallData) × (get_elem? end_world.produce_calls n ≡ some c)
      × (produce_view c ≡ (process, false))
      × Awaits request_produce n (after [] kept) end_world)
    × ((n : ℕ) × (c : ConsumeCallData) × (get_elem? end_world.consume_calls n ≡ some c)
        × (consume_view c ≡ (process, false))
        × Awaits request_consume n (after [] kept) end_world)
    × ((n : ℕ) × (c : ConsumeAckCallData) × (get_elem? end_world.consume_ack_calls n ≡ some c)
        × (ack_view c ≡ (process, false))
        × Awaits request_consume_ack n (after [] kept) end_world)
always_listens_example =
    always_listens good_broker 5 [] [] [] [] kept end_world good_broker-Starts kept-Promised
      kept_went

replies-IsGenuine_example : All (IsGenuine (brought kept)) end_world.actions
unfolding Worker.set_config
replies-IsGenuine_example = replies-IsGenuine good_broker fresh end_world kept refl refl kept_went
