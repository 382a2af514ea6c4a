-- ===== src/Matcher/Rounds.antt =====
-- One round of the matcher, branch by branch.
use rocketmq_proxy.Prelude.{
  ℕ, zero, suc, ◌-◌, ◌≤◌, true, false, [], ◌∷◌, ◌++◌, none, some, Bytes, bytes, bytes_less,
  get_elem?, set, arith, ◌≡◌, refl,
}
use rocketmq_proxy.QueueTs
use rocketmq_proxy.MapTs
use rocketmq_proxy.Message.{proxy_consume_init, client_receive}
use rocketmq_proxy.Consumer.{ConsumerUnit, fetch, set_msg_reconsume}
use rocketmq_proxy.Broker.{Broker}
use rocketmq_proxy.World.{
  World, ok, ConsumeMsgUnit, get_is_fetch_msg_timeout, get_is_ack_timeout, ConsumeCallData, finish,
  finish_consume,
}
use rocketmq_proxy.Calls.{response_timeout}
use rocketmq_proxy.Worker.Consumers.{get_consumer_known}
use rocketmq_proxy.Worker.{reset_consumer_active}
use rocketmq_proxy.Matcher.{match_unit, match_round, match_rounds, fetch_and_consume, reconsume}

-- A fetch that finds nothing changes nothing.
fetch_and_consume_nothing :
    (w : World) (a c : ℕ) (u : ConsumerUnit)
    → get_elem? w.consumer_units c ≡ some u
    → fetch u ≡ none
    → fetch_and_consume (some c) a w ≡ ok (tt, w)
unfolding fetch_and_consume
fetch_and_consume_nothing w a c u at_c nothing = rw (at_c, nothing)

-- The pool with a unit at its end.
abbrev pub pooled_again : World → ℕ → World
pooled_again w a = record w {
  consume_msg_pool = record { data_queue = w.consume_msg_pool.data_queue ++ a ∷ [] };
}

-- A request for which there is no message, and which has waited less than ten seconds, goes back
-- to the end of the pool; nothing else changes.
pub match_unit_idle :
    (b : Broker) (w : World) (a c : ℕ) (unit : ConsumeMsgUnit) (u : ConsumerUnit)
    → get_elem? w.consume_msg_units a ≡ some unit
    → unit.status ≡ proxy_consume_init
    → MapTs.try_get w.consumers (unit.topic ++ unit.group) ≡ some c
    → get_elem? w.consumer_units c ≡ some u
    → fetch u ≡ none
    → get_is_fetch_msg_timeout w.now unit ≡ false
    → match_unit b a w ≡ ok (tt, pooled_again w a)
unfolding match_unit QueueTs.push
match_unit_idle b w a c unit u at_a waiting known at_c nothing patient = ground (
  arith,
  get_consumer_known b unit.topic unit.group w c known,
  fetch_and_consume_nothing w a c u at_c nothing,
)

-- Where a request waits in the pool alone, there is no message for it, and ten seconds have not
-- passed: however many rounds the matcher makes while the clock stands, it never comes to wait for
-- a notification, and each round leaves the state as it was.
pub match_rounds_busy :
    (b : Broker) (w : World) (a c : ℕ) (unit : ConsumeMsgUnit) (u : ConsumerUnit) (n : ℕ)
    → w.consume_msg_pool ≡ record { data_queue = a ∷ [] }
    → get_elem? w.consume_msg_units a ≡ some unit
    → unit.status ≡ proxy_consume_init
    → MapTs.try_get w.consumers (unit.topic ++ unit.group) ≡ some c
    → get_elem? w.consumer_units c ≡ some u
    → fetch u ≡ none
    → get_is_fetch_msg_timeout w.now unit ≡ false
    → match_rounds b n w ≡ ok (true, w)
unfolding match_rounds
match_rounds_busy b w a c unit u zero pooled at_a waiting known at_c nothing patient = refl
match_rounds_busy b w a c unit u (suc n) pooled at_a waiting known at_c nothing patient = ground (
  arith,
  round,
  match_rounds_busy b w a c unit u n pooled at_a waiting known at_c nothing patient,
)
  where
    popped : World
    popped = record w { consume_msg_pool = record { data_queue = [] } }

    round : match_round b w ≡ ok (true, w)
    round =
        unfold match_round QueueTs.try_pop in
        ground (
          arith,
          pooled,
          match_unit_idle b popped a c unit u at_a waiting known at_c nothing patient,
        )

-- What `resetConsumerActive` does to a consumer that is known.
pub reset_consumer_active_known :
    (topic group : Bytes) (w : World) (c : ℕ) (u : ConsumerUnit)
    → MapTs.try_get w.consumers (topic ++ group) ≡ some c
    → get_elem? w.consumer_units c ≡ some u
    → reset_consumer_active topic group w
      ≡ ok (
        tt,
        record w { consumer_units = set w.consumer_units c (record u { last_active_at = w.now }) },
      )
unfolding reset_consumer_active
reset_consumer_active_known topic group w c u known at_c = ground arith

-- The end of a call with `RESPONSE_TIMEOUT`.
abbrev pub ended_by_timeout : ConsumeCallData → ConsumeCallData
ended_by_timeout d = record d {
  reply = record {
    code = response_timeout;
    msg_id = d.reply.msg_id;
    body = d.reply.body;
    error_msg = bytes "get msg timeout";
  };
  status = finish;
}

-- A request for which there is no message, and which has waited ten seconds or more, is answered
-- with `RESPONSE_TIMEOUT` and leaves the pool; its consumer counts as active now.
pub match_unit_timeout :
    (b : Broker) (w : World) (a c : ℕ) (unit : ConsumeMsgUnit) (u : ConsumerUnit)
    (d : ConsumeCallData)
    → get_elem? w.consume_msg_units a ≡ some unit
    → unit.status ≡ proxy_consume_init
    → MapTs.try_get w.consumers (unit.topic ++ unit.group) ≡ some c
    → get_elem? w.consumer_units c ≡ some u
    → fetch u ≡ none
    → 10 ≤ w.now - unit.last_active_at
    → get_elem? w.consume_calls unit.call_data ≡ some d
    → d.deleted ≡ false
    → match_unit b a w
      ≡ ok (
        tt,
        record w {
          consumer_units = set w.consumer_units c (record u { last_active_at = w.now });
          consume_calls = set w.consume_calls unit.call_data (ended_by_timeout d);
          actions = w.actions ++ finish_consume unit.call_data (ended_by_timeout d).reply ∷ [];
        },
      )
unfolding match_unit get_is_fetch_msg_timeout
match_unit_timeout b w a c unit u d at_a waiting known at_c nothing late at_d alive = ground (
  arith,
  get_consumer_known b unit.topic unit.group w c known,
  fetch_and_consume_nothing w a c u at_c nothing,
  reset_consumer_active_known unit.topic unit.group w c u known at_c,
)

-- A delivered message that is not acknowledged ten seconds after the request came is to be
-- consumed again: the consumer's batches get `RECONSUME_LATER` for its id, and the unit leaves the
-- pool. The time of the delivery has no part in it.
pub match_unit_ack_timeout :
    (b : Broker) (w : World) (a c : ℕ) (unit : ConsumeMsgUnit) (u : ConsumerUnit)
    → get_elem? w.consume_msg_units a ≡ some unit
    → unit.status ≡ client_receive
    → MapTs.try_get w.consumers (unit.topic ++ unit.group) ≡ some c
    → get_elem? w.consumer_units c ≡ some u
    → 10 ≤ w.now - unit.last_active_at
    → match_unit b a w
      ≡ ok (
        tt,
        record w { consumer_units = set w.consumer_units c (set_msg_reconsume unit.msg_id u).1 },
      )
unfolding match_unit get_is_ack_timeout reconsume
match_unit_ack_timeout b w a c unit u at_a received known at_c late =
    ground (arith, get_consumer_known b unit.topic unit.group w c known)
