-- ===== src/Matcher.antt =====
-- MsgWorker.cpp: `loopMatch`, which hands the broker's messages to the requests that wait, and
-- ends the requests and deliveries that time out.
pub mod Rounds
pub mod Deliveries
pub mod Ends
pub mod Drained
use rocketmq_proxy.Prelude.{
  ℕ, Bool, true, false, List, [], ◌∷◌, Option, none, some, Bytes, bytes, bytes_less, get_elem?, set,
  if◌then◌else◌, zero, suc,
}
use rocketmq_proxy.QueueTs
use rocketmq_proxy.QueueTs.{QueueTs}
use rocketmq_proxy.MapTs
use rocketmq_proxy.Message.{
  MsgUnit, proxy_consume_init, client_receive, consume_ack, MsgWorkerConsumeStatus,
}
use rocketmq_proxy.Consumer.{ConsumerUnit, fetch, set_msg_reconsume}
use rocketmq_proxy.Broker.{Broker}
use rocketmq_proxy.World.{
  World, M, pure, stop, ◌>>=◌, ◌>>◌, read, modify, follow, deref, ConsumeMsgUnit,
  get_is_fetch_msg_timeout, get_is_ack_timeout, LogUnit,
}
use rocketmq_proxy.Worker.{get_consumer, reset_consumer_active, write_log, set_consumer_unit}
use rocketmq_proxy.Calls.{response_msg, response_time_out}

abbrev pub get_unit : ℕ → M ConsumeMsgUnit
get_unit a = do found ← read (λ w. get_elem? w.consume_msg_units a); follow found

abbrev pub put_unit : ℕ → ConsumeMsgUnit → M (Unit {0})
put_unit a u = modify λ w. record w { consume_msg_units = set w.consume_msg_units a u }

-- PROXY_LOGGER_TYPE_CONSUME
abbrev pub proxy_logger_type_consume : ℕ
proxy_logger_type_consume = 2

-- The callback `func`: the message goes to the request at `a`.
unfoldable pub deliver : ℕ → MsgUnit → M (Unit {0})
unfolding write_log
deliver a msg = do
  unit ← get_unit a
  put_unit a (record unit { msg_id = msg.msg_id; status = client_receive })
  modify λ w. record w { id_unit_map = MapTs.insert_or_update w.id_unit_map msg.msg_id a }
  response_msg unit.call_data 0 (bytes "") msg.msg_id msg.body
  reset_consumer_active unit.topic unit.group
  write_log proxy_logger_type_consume msg.msg_id msg.topic msg.group msg.body msg.delay_level 0

-- What `fetchAndConsume` does with the outcome of its search.
abbrev pub consume_fetched : ℕ → ℕ → Option (Option MsgUnit × ConsumerUnit) → M (Unit {0})
consume_fetched consumer a none = pure tt
consume_fetched consumer a (some (found, u)) = do
  set_consumer_unit consumer u
  msg ← follow found
  deliver a msg

-- `fetchAndConsume(func)`, called through the pointer that `getConsumer` returned.
unfoldable pub fetch_and_consume : Option ℕ → ℕ → M (Unit {0})
fetch_and_consume consumer a = do
  c ← deref consumer
  found ← read (λ w. get_elem? w.consumer_units c)
  u ← follow found
  consume_fetched c a (fetch u)

-- `consumer->setMsgReconsume(msgId)`.
unfoldable pub reconsume : Option ℕ → Bytes → M (Unit {0})
reconsume consumer id = do
  c ← deref consumer
  found ← read (λ w. get_elem? w.consumer_units c)
  u ← follow found
  set_consumer_unit c (set_msg_reconsume id u).1

-- `tmp.try_pop` until `tmp` is empty: its units go back to the pool.
unfoldable pub drain_tmp : List ℕ → M (Unit {0})
drain_tmp [] = pure tt
drain_tmp (a ∷ rest) = do
  modify λ w. record w { consume_msg_pool = QueueTs.push w.consume_msg_pool a }
  drain_tmp rest

-- `tmp.push(unit)` and the loop that follows. `tmp` is empty before, since each round drains it.
unfoldable pub requeue : ℕ → M (Unit {0})
unfolding drain_tmp QueueTs.push QueueTs.new
requeue a = drain_tmp (QueueTs.push QueueTs.new a).data_queue

-- A request that waits for a message. The timeout is asked after the delivery, which changes the
-- unit's status.
unfoldable pub match_init : Option ℕ → ℕ → M (Unit {0})
unfolding requeue response_time_out
match_init consumer a = do
  fetch_and_consume consumer a
  unit ← get_unit a
  timed_out ← read (λ w. get_is_fetch_msg_timeout w.now unit)
  if timed_out
      then (do reset_consumer_active unit.topic unit.group; response_time_out unit.call_data)
      else requeue a

-- A message that waits for its acknowledgement.
unfoldable pub match_receive : Option ℕ → ℕ → M (Unit {0})
unfolding requeue
match_receive consumer a = do
  unit ← get_unit a
  timed_out ← read (λ w. get_is_ack_timeout w.now unit)
  if timed_out then reconsume consumer unit.msg_id else requeue a

abbrev pub match_by : Option ℕ → ℕ → MsgWorkerConsumeStatus → M (Unit {0})
match_by consumer a proxy_consume_init = match_init consumer a
match_by consumer a client_receive = match_receive consumer a
match_by consumer a consume_ack = pure tt

-- The inner loop's body, for the unit that `try_pop` took from the pool.
unfoldable pub match_unit : Broker → ℕ → M (Unit {0})
unfolding match_init match_receive
match_unit b a = do
  unit ← get_unit a
  consumer ← get_consumer b unit.topic unit.group
  match_by consumer a unit.status

-- One test of the inner loop: `false` if the pool is empty and the thread goes on to wait.
unfoldable pub match_round : Broker → M Bool
unfolding match_unit
match_round b w = elim (QueueTs.try_pop w.consume_msg_pool) [
  | none ↦ pure false w
  | some (a, pool) ↦ (do match_unit b a; pure true) (record w { consume_msg_pool = pool })
]

-- `n` tests of the inner loop, or as many as there are until the thread waits.
pub match_rounds : Broker → ℕ → M Bool
match_rounds b zero = pure true
match_rounds b (suc n) = do more ← match_round b; if more then match_rounds b n else pure false
