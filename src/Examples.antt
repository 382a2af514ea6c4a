-- ===== src/Examples.antt =====
-- A broker and states of the server at which the theorems on the shared state are instantiated.
pub mod Clients
pub mod Contracts
pub mod Workers
pub mod Matches
pub mod Acks
pub mod Produces
pub mod Logs
pub mod Shutdowns
pub mod Starts
pub mod Systems
pub mod Wires
use rocketmq_proxy.Prelude.{
  ℕ, true, false, List, [], ◌∷◌, ◌++◌, some, none, Bytes, bytes, ltb, bytes_less, nat_less, not,
}
use rocketmq_proxy.QueueTs
use rocketmq_proxy.MapTs
use rocketmq_proxy.Message.{MqMessageExt, MsgUnit, proxy_consume_init, client_receive}
use rocketmq_proxy.Locker.{ConsumerUnitLocker}
use rocketmq_proxy.Locker
use rocketmq_proxy.Consumer.{ConsumerUnit, wait_lock}
use rocketmq_proxy.Broker.{Broker}
use rocketmq_proxy.World.{
  World, new_worker, ConsumeMsgUnit, ConsumeCallData, ConsumeAckCallData, ProduceCallData,
  ProducerUnit, process,
}
use rocketmq_proxy.Proto.{empty_consume_reply, empty_consume_ack_reply, empty_produce_reply}
use rocketmq_proxy.Worker.{new_consumer, new_producer}

-- Starts succeed from the time 10 on, and sends do not throw.
abbrev pub late_broker : Broker
late_broker = record {
  consumer_start = λ c now. ltb 9 now;
  producer_start = λ p now. ltb 9 now;
  send = λ msg now. none;
}

abbrev pub empty_world : World
empty_world = record (new_worker 20) {
  name_server_host = bytes "localhost:9876";
  access_channel = bytes "channel";
}

abbrev pub early_world : World
early_world = record empty_world { now = 2 }

abbrev pub hello : MqMessageExt
hello = record {
  msg_id = bytes "m1";
  delay_time_level = 0;
  body = bytes "hello";
  topic = bytes "t";
}

-- A consumer without messages, and one with a batch of one message.
abbrev pub idle_unit : ConsumerUnit
idle_unit = new_consumer (bytes "t") (bytes "g") early_world

abbrev pub busy_unit : ConsumerUnit
busy_unit = wait_lock 20 (Locker.new 5 (bytes "g") ((9, hello) ∷ [])) idle_unit

-- A request that came at the time 15, and the unit of its call, which is the first.
abbrev pub waiting_unit : ConsumeMsgUnit
waiting_unit = record {
  call_data = 0;
  topic = bytes "t";
  group = bytes "g";
  msg_id = [];
  last_active_at = 15;
  status = proxy_consume_init;
}

abbrev pub consume_call : ConsumeCallData
consume_call = record {
  status = process;
  request = record { topic = bytes "t"; consumer_group = bytes "g" };
  reply = empty_consume_reply;
  msg_id = [];
  topic = bytes "t";
  group = bytes "g";
  deleted = false;
}

-- A server with a consumer and a consume request's unit.
abbrev pub consuming : ConsumerUnit → ConsumeMsgUnit → World
consuming u unit = record empty_world {
  consumers = record { the_map = (bytes "tg", 0) ∷ [] };
  consumer_units = u ∷ [];
  consume_msg_units = unit ∷ [];
  consume_calls = consume_call ∷ [];
}

abbrev pub ack_call : ConsumeAckCallData
ack_call = record {
  status = process;
  request = record {
    topic = bytes "t";
    msg_id = bytes "m1";
    consumer_group = bytes "g";
    status = 0;
  };
  reply = empty_consume_ack_reply;
  msg_id = [];
  topic = [];
  group = [];
  deleted = false;
}

abbrev pub delivered_unit : ConsumeMsgUnit
delivered_unit = record waiting_unit { msg_id = bytes "m1"; status = client_receive }

-- A server with an acknowledgement to process.
abbrev pub acking : ConsumerUnit → World
acking u = record (consuming u delivered_unit) {
  id_unit_map = record { the_map = (bytes "m1", 0) ∷ [] };
  consume_ack_calls = ack_call ∷ [];
}

-- A request to send, with a delay level, and servers that have it.
abbrev pub produce_call : ProduceCallData
produce_call = record {
  status = process;
  retry_count = 0;
  request = record {
    topic = bytes "t";
    group = bytes "g";
    tag = bytes "a";
    body = bytes "hello";
    delay_level = 3;
  };
  reply = empty_produce_reply;
  deleted = false;
}

abbrev pub producer_unit : ProducerUnit
producer_unit = new_producer (bytes "t") (bytes "g") empty_world

abbrev pub producing : World
producing = record empty_world {
  producers = (bytes "tg", producer_unit) ∷ [];
  produce_calls = produce_call ∷ [];
}
