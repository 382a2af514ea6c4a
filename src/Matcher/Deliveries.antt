-- ===== src/Matcher/Deliveries.antt =====
-- A round in which a message is handed to a client.
use rocketmq_proxy.Prelude.{
  ℕ, false, [], ◌∷◌, ◌++◌, some, bytes_less, get_elem?, set, arith, ◌≡◌, get_elem?-set_self,
}
use rocketmq_proxy.QueueTs
use rocketmq_proxy.MapTs
use rocketmq_proxy.Message.{MsgUnit, proxy_consume_init, client_receive}
use rocketmq_proxy.Consumer.{ConsumerUnit, fetch}
use rocketmq_proxy.Broker.{Broker}
use rocketmq_proxy.World.{
  World, ok, ConsumeMsgUnit, get_is_fetch_msg_timeout, LogUnit, ConsumeCallData, finish,
  finish_consume,
}
use rocketmq_proxy.Worker.Consumers.{get_consumer_known}
use rocketmq_proxy.Calls.{response_success, response_msg}
use rocketmq_proxy.Matcher.{match_unit, fetch_and_consume, deliver, proxy_logger_type_consume}
use rocketmq_proxy.Matcher.Rounds.{reset_consumer_active_known}

-- The end of a call with a message.
abbrev pub answered : ConsumeCallData → MsgUnit → ConsumeCallData
answered d msg = record d {
  reply = record { code = response_success; msg_id = msg.msg_id; body = msg.body; error_msg = [] };
  status = finish;
  msg_id = msg.msg_id;
}

abbrev pub received : ConsumeMsgUnit → MsgUnit → ConsumeMsgUnit
received unit msg = record unit { msg_id = msg.msg_id; status = client_receive }

abbrev pub consume_log : MsgUnit → LogUnit
consume_log msg = record {
  type = proxy_logger_type_consume;
  msg_id = msg.msg_id;
  topic = msg.topic;
  group = msg.group;
  body = msg.body;
  delay_level = msg.delay_level;
  status = 0;
}

-- The state after a delivery up to the answer, with the consumer's unit `u'` after the fetch.
abbrev answered_world :
    World → ℕ → ℕ → ConsumeMsgUnit → ConsumerUnit → ConsumeCallData → MsgUnit → World
answered_world w a c unit u' d msg = record w {
  consumer_units = set w.consumer_units c u';
  consume_msg_units = set w.consume_msg_units a (received unit msg);
  id_unit_map = MapTs.insert_or_update w.id_unit_map msg.msg_id a;
  consume_calls = set w.consume_calls unit.call_data (answered d msg);
  actions = w.actions ++ finish_consume unit.call_data (answered d msg).reply ∷ [];
}

-- The whole delivery.
abbrev pub delivered :
    World → ℕ → ℕ → ConsumeMsgUnit → ConsumerUnit → ConsumeCallData → MsgUnit → World
delivered w a c unit u' d msg = record (answered_world w a c unit u' d msg) {
  consumer_units = set (set w.consumer_units c u') c (record u' { last_active_at = w.now });
  log_queue = QueueTs.push w.log_queue (consume_log msg);
}

module _ (b : Broker) (w : World) (a c : ℕ) (unit : ConsumeMsgUnit) (u u' : ConsumerUnit)
    (d : ConsumeCallData) (msg : MsgUnit) (at_a : get_elem? w.consume_msg_units a ≡ some unit)
    (waiting : unit.status ≡ proxy_consume_init)
    (known : MapTs.try_get w.consumers (unit.topic ++ unit.group) ≡ some c)
    (at_c : get_elem? w.consumer_units c ≡ some u) (fetched : fetch u ≡ some (some msg, u'))
    (at_d : get_elem? w.consume_calls unit.call_data ≡ some d) (alive : d.deleted ≡ false) where
  deliver_lem : fetch_and_consume (some c) a w ≡ ok (tt, delivered w a c unit u' d msg)
  unfolding fetch_and_consume deliver response_msg
  deliver_lem = ground (
    arith,
    reset_consumer_active_known unit.topic unit.group (answered_world w a c unit u' d msg) c u'
        known (get_elem?-set_self w.consumer_units c u' u at_c),
  )

  -- A request that waits, and for which there is a message: the client is answered with the code 0
  -- and the message's id and body; the unit records the id and that the client has received it, is
  -- found under the id, and stays in the pool; the consumer counts as active now; the delivery is
  -- logged; and nothing else changes.
  pub match_unit_deliver :
      match_unit b a w
      ≡ ok (
        tt,
        let w' = delivered w a c unit u' d msg in
            record w' { consume_msg_pool = QueueTs.push w.consume_msg_pool a },
      )
  unfolding match_unit get_is_fetch_msg_timeout
  match_unit_deliver = ground (
    arith,
    get_consumer_known b unit.topic unit.group w c known,
    deliver_lem,
    get_elem?-set_self w.consume_msg_units a (received unit msg) unit at_a,
  )
