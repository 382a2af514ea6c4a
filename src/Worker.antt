-- ===== src/Worker.antt =====
-- MsgWorker.h and MsgWorker.cpp: the members of `MsgWorker` that the calls and the matcher use.
pub mod Consumers
pub mod Threads
use rocketmq_proxy.Prelude.{
  ℕ, Bool, true, false, List, [], ◌∷◌, ◌++◌, Option, none, some, Bytes, bytes, bytes_less, length,
  get_elem?, set, if◌then◌else◌,
}
use rocketmq_proxy.StdMap.{find, insert}
use rocketmq_proxy.QueueTs
use rocketmq_proxy.MapTs
use rocketmq_proxy.Broker.{
  Broker, DefaultMqPushConsumer, DefaultMqProducer, MqMessage, SessionCredentials,
  consume_from_last_offset,
}
use rocketmq_proxy.Logger
use rocketmq_proxy.Consumer.{ConsumerUnit}
use rocketmq_proxy.World.{
  World, M, pure, stop, ◌>>=◌, ◌>>◌, read, modify, follow, deref, emit, LogUnit, ConsumeMsgUnit,
  ProducerUnit, send, Fault,
}

abbrev pub instance_name : Bytes
instance_name = bytes "RMQPROXY"

unfoldable pub set_config : Bytes → Bytes → Bytes → Bytes → World → World
set_config name_server access_key secret_key channel w = record w {
  name_server_host = name_server;
  access_key = access_key;
  secret_key = secret_key;
  access_channel = channel;
}

abbrev pub credentials : World → SessionCredentials
credentials w = record {
  access_key = w.access_key;
  secret_key = w.secret_key;
  channel = w.access_channel;
}

unfoldable pub write_log : ℕ → Bytes → Bytes → Bytes → Bytes → ℕ → ℕ → M (Unit {0})
unfolding Logger.write_log
write_log type msg_id topic group body delay_level status = modify λ w. record w {
  log_queue = Logger.write_log type msg_id topic group body delay_level status w.log_queue;
}

-- What `getProducer` builds for a key that is new.
unfoldable pub new_producer : Bytes → Bytes → World → ProducerUnit
new_producer topic group w = record {
  producer = record {
    name = topic;
    namesrv_addr = w.name_server_host;
    group_name = group;
    instance_name = instance_name;
    tcp_transport_pull_thread_num = 1;
    send_msg_timeout = 500;
    tcp_transport_try_lock_timeout = 1000;
    tcp_transport_connect_timeout = 400;
    session_credentials = credentials w;
  };
  last_active_at = w.now;
}

-- `none` is `nullptr`, where `start` threw.
unfoldable pub get_producer : Broker → Bytes → Bytes → M (Option ProducerUnit)
unfolding new_producer
get_producer b topic group w = elim (find (topic ++ group) w.producers) [
  | some unit ↦ pure (some unit) w
  | none ↦
      let unit = new_producer topic group w in
      if b.producer_start unit.producer w.now
      then pure (some unit) (record w { producers = insert (topic ++ group) unit w.producers })
      else pure none w
]

-- What `getConsumer` builds for a key that is new.
unfoldable pub new_consumer : Bytes → Bytes → World → ConsumerUnit
new_consumer topic group w = record {
  lockers = [];
  consumer = record {
    group_name = group;
    namesrv_addr = w.name_server_host;
    consume_from_where = consume_from_last_offset;
    instance_name = instance_name;
    subscribed_topic = topic;
    sub_expression = bytes "*";
    consume_thread_count = 2;
    tcp_transport_pull_thread_num = 1;
    pull_msg_thread_pool_count = 1;
    max_cache_msg_size_per_queue = 128;
    tcp_transport_try_lock_timeout = 1000;
    tcp_transport_connect_timeout = 400;
    session_credentials = credentials w;
  };
  last_active_at = w.now;
}

unfoldable pub init_msg_queue : Bytes → World → World
init_msg_queue key w = record w { msg_pool = MapTs.insert w.msg_pool key QueueTs.new }

-- The state in which `start` is called: the new unit is allocated, its callback registered and its
-- queue made.
unfoldable pub prepare_consumer : Bytes → Bytes → World → World
unfolding new_consumer init_msg_queue
prepare_consumer topic group w =
    init_msg_queue (topic ++ group)
      (record w { consumer_units = w.consumer_units ++ new_consumer topic group w ∷ [] })

-- The address of the consumer; `none` is `nullptr`, where `start` threw.
unfoldable pub get_consumer : Broker → Bytes → Bytes → M (Option ℕ)
unfolding prepare_consumer
get_consumer b topic group w = elim (MapTs.try_get w.consumers (topic ++ group)) [
  | some a ↦ pure (some a) w
  | none ↦
      let a = length w.consumer_units in
      let w' = prepare_consumer topic group w in
      if b.consumer_start (new_consumer topic group w).consumer w.now
      then pure (some a) (record w' { consumers = MapTs.insert w'.consumers (topic ++ group) a })
      else pure none w'
]

abbrev pub set_consumer_unit : ℕ → ConsumerUnit → M (Unit {0})
set_consumer_unit a u = modify λ w. record w { consumer_units = set w.consumer_units a u }

unfoldable pub reset_consumer_active : Bytes → Bytes → M (Unit {0})
reset_consumer_active topic group w = elim (MapTs.try_get w.consumers (topic ++ group)) [
  | none ↦ pure tt w
  | some a ↦
      (do
        u ← follow (get_elem? w.consumer_units a)
        set_consumer_unit a (record u { last_active_at = w.now }))
        w
]

-- A `send` that throws has sent nothing.
abbrev pub record_send : ℕ → MqMessage → Option Bytes → M (Option Bytes)
record_send call msg (some what) = pure (some what)
record_send call msg none = do emit (send call msg); pure none

-- `producerUnit->producer.send(msg, callback)`: the result is the text of the exception that
-- `send` throws.
unfoldable pub send_by : Broker → ℕ → MqMessage → Option ProducerUnit → M (Option Bytes)
send_by b call msg none = stop Fault.null_pointer
send_by b call msg (some unit) = do what ← read (λ w. b.send msg w.now); record_send call msg what

-- `produce`, with the callback of the call object at `call`.
unfoldable pub produce : Broker → ℕ → Bytes → Bytes → Bytes → Bytes → ℕ → M (Option Bytes)
unfolding get_producer send_by
produce b call topic group tag body delay_level = do
  unit ← get_producer b topic group
  send_by b call (record { topic = topic; tags = tag; body = body; delay_time_level = delay_level })
      unit
