-- ===== src/System/Matches.antt =====
-- The matcher, by the rules of System/Keeps.
use rocketmq_proxy.System.Fetches.{FetchIsRight, fetch-FetchIsRight}
use rocketmq_proxy.Prelude.{
  ℕ, true, false, List, [], ◌∷◌, ◌++◌, All, Option, none, some, Bytes, bytes_less, refl, get_elem?,
  nat_less, arith, All-append,
}
use rocketmq_proxy.QueueTs
use rocketmq_proxy.QueueTs.{QueueTs}
use rocketmq_proxy.MapTs
use rocketmq_proxy.Broker.{Broker}
use rocketmq_proxy.Message.{
  MsgUnit, MsgWorkerConsumeStatus, proxy_consume_init, client_receive, consume_ack, reconsume_later,
}
use rocketmq_proxy.Consumer.{ConsumerUnit, fetch, set_msg_reconsume}
use rocketmq_proxy.Consumer.History.{takes, acknowledges, unit_after, unit_step, unit_step-Every}
use rocketmq_proxy.World.{finish_consume, World, pure, follow, ◌>>=◌, ◌>>◌, ConsumeMsgUnit}
use rocketmq_proxy.Worker.{
  get_consumer, prepare_consumer, new_consumer, init_msg_queue, reset_consumer_active,
  set_consumer_unit,
}
use rocketmq_proxy.Calls.{get_consume, response_msg, response_time_out}
use rocketmq_proxy.Matcher.{
  get_unit, put_unit, deliver, consume_fetched, fetch_and_consume, reconsume, drain_tmp, requeue,
  match_init, match_receive, match_by, match_unit, match_round,
}
use rocketmq_proxy.System.Keeps.{
  Keeps-emit, Keeps, keeps, Keeps-unit, Keeps-pure, Keeps-bind, Keeps-deref,
  Keeps-set_consumer_unit, Keeps-modify,
}
use rocketmq_proxy.System.Sends.{write_log-Keeps}
use rocketmq_proxy.System.Lasting.{Lasting, Holds, ValidAfter, UnitHolds, handed}

pub get_consume-Keeps : {L : Lasting} → (a : ℕ) → Keeps L (get_consume a)
get_consume-Keeps a = search keeps

response_msg-Keeps :
    {L : Lasting}
    → (a code : ℕ) (err id body : Bytes)
    → L.Right (finish_consume a (record { code = code; msg_id = id; body = body; error_msg = err }))
    → Keeps L (response_msg a code err id body)
unfolding response_msg
response_msg-Keeps a code err id body right = search (keeps, Keeps-emit, right)

response_time_out-Keeps : {L : Lasting} → (a : ℕ) → Keeps L (response_time_out a)
unfolding response_time_out
response_time_out-Keeps a = search keeps

pub get_unit-Keeps : {L : Lasting} → (a : ℕ) → Keeps L (get_unit a)
get_unit-Keeps a = search keeps

pub put_unit-Keeps : {L : Lasting} → (a : ℕ) (u : ConsumeMsgUnit) → Keeps L (put_unit a u)
put_unit-Keeps a u = search keeps

-- A consumer that is new has no batches.
pub get_consumer-Keeps :
    {L : Lasting} → (b : Broker) (topic group : Bytes) → Keeps L (get_consumer b topic group)
unfolding get_consumer prepare_consumer new_consumer init_msg_queue
get_consumer-Keeps {L = L} b topic group = record {
  after = λ w v.
      let units : All (UnitHolds L) (w.consumer_units ++ new_consumer topic group w ∷ []) =
        All-append (UnitHolds L) w.consumer_units (new_consumer topic group w ∷ []) v.0 (tt, tt) in
      let actions : All L.Right w.actions = v.1 in ground (arith, units, actions);
}

pub reset_consumer_active-Keeps :
    {L : Lasting} → (topic group : Bytes) → Keeps L (reset_consumer_active topic group)
unfolding reset_consumer_active
reset_consumer_active-Keeps {L = L} topic group = record {
  after = λ w v. by_found w v (MapTs.try_get w.consumers (topic ++ group));
}
  where
    by_found :
        (w : World)
        → Holds L w
        → (r : Option ℕ)
        → ValidAfter L (elim r [
          | none ↦ pure tt w
          | some a ↦
              (do
                u ← follow (get_elem? w.consumer_units a)
                set_consumer_unit a (record u { last_active_at = w.now }))
                w
        ])
    by_found w v none = v
    by_found w v (some a) =
        (Keeps-unit {L = L} a (λ u. set_consumer_unit a (record u { last_active_at = w.now }))
            (λ u valid.
              Keeps-set_consumer_unit a (record u { last_active_at = w.now }) valid)).after
          w v

deliver-Keeps :
    {L : Lasting}
    → (a : ℕ) (msg : MsgUnit) → ((call : ℕ) → L.Right (finish_consume call (handed msg)))
    → Keeps L (deliver a msg)
unfolding deliver
deliver-Keeps a msg right =
    search
      (
        keeps, get_unit-Keeps, put_unit-Keeps, response_msg-Keeps, right,
        reset_consumer_active-Keeps, write_log-Keeps,
      )
      depth 12

-- What is fetched leaves the batches valid.
consume_fetched-Keeps :
    {L : Lasting}
    → (k a : ℕ) (u : ConsumerUnit) → UnitHolds L u
    → Keeps L (consume_fetched k a (fetch u))
unfolding fetch unit_step
consume_fetched-Keeps {L = L} k a u valid =
    by_outcome (fetch u) (unit_step-Every L.Valid L.step-Valid u takes tt valid)
      (fetch-FetchIsRight L u valid)
  where
    by_outcome :
        (r : Option (Option MsgUnit × ConsumerUnit))
        → UnitHolds L (unit_after u r)
        → FetchIsRight L r
        → Keeps L (consume_fetched k a r)
    by_outcome none valid' right = search keeps
    by_outcome (some (none, u')) valid' right = search (keeps, Keeps-set_consumer_unit)
    by_outcome (some (some msg, u')) valid' right =
        Keeps-bind _ _ (Keeps-set_consumer_unit k u' valid') (λ _. deliver-Keeps a msg right)

fetch_and_consume-Keeps : {L : Lasting} → (k : Option ℕ) (a : ℕ) → Keeps L (fetch_and_consume k a)
unfolding fetch_and_consume
fetch_and_consume-Keeps k a =
    Keeps-bind _ _ (Keeps-deref k) (λ c. Keeps-unit c _ (consume_fetched-Keeps c a))

pub reconsume-Keeps : {L : Lasting} → (k : Option ℕ) (id : Bytes) → Keeps L (reconsume k id)
unfolding reconsume set_msg_reconsume unit_step
reconsume-Keeps {L = L} k id = Keeps-bind _ _ (Keeps-deref k) (λ c. Keeps-unit c _ (λ u valid.
    Keeps-set_consumer_unit c _
      (unit_step-Every L.Valid L.step-Valid u (acknowledges id reconsume_later) tt valid)))

drain_tmp-Keeps : {L : Lasting} → (units : List ℕ) → Keeps L (drain_tmp units)
unfolding drain_tmp
drain_tmp-Keeps [] = search keeps
drain_tmp-Keeps (a ∷ units) =
    Keeps-bind _ _ (Keeps-modify _ (λ w. refl) (λ w. refl)) (λ _. drain_tmp-Keeps units)

requeue-Keeps : {L : Lasting} → (a : ℕ) → Keeps L (requeue a)
unfolding requeue
requeue-Keeps a = drain_tmp-Keeps (QueueTs.push QueueTs.new a).data_queue

match_init-Keeps : {L : Lasting} → (k : Option ℕ) (a : ℕ) → Keeps L (match_init k a)
unfolding match_init
match_init-Keeps k a =
    search
      (
        keeps, fetch_and_consume-Keeps, get_unit-Keeps, reset_consumer_active-Keeps,
        response_time_out-Keeps, requeue-Keeps,
      )
      depth 12

match_receive-Keeps : {L : Lasting} → (k : Option ℕ) (a : ℕ) → Keeps L (match_receive k a)
unfolding match_receive
match_receive-Keeps k a = search (keeps, get_unit-Keeps, reconsume-Keeps, requeue-Keeps) depth 12

match_by-Keeps :
    {L : Lasting} → (k : Option ℕ) (a : ℕ) (s : MsgWorkerConsumeStatus) → Keeps L (match_by k a s)
match_by-Keeps k a proxy_consume_init = match_init-Keeps k a
match_by-Keeps k a client_receive = match_receive-Keeps k a
match_by-Keeps k a consume_ack = search keeps

match_unit-Keeps : {L : Lasting} → (b : Broker) (a : ℕ) → Keeps L (match_unit b a)
unfolding match_unit
match_unit-Keeps b a = search (keeps, get_unit-Keeps, get_consumer-Keeps, match_by-Keeps)

pub match_round-Keeps : {L : Lasting} → (b : Broker) → Keeps L (match_round b)
unfolding match_round
match_round-Keeps {L = L} b = record {
  after = λ w v. by_popped w v (QueueTs.try_pop w.consume_msg_pool);
}
  where
    by_popped :
        (w : World)
        → Holds L w
        → (r : Option (ℕ × QueueTs ℕ))
        → ValidAfter L (elim r [
          | none ↦ pure false w
          | some (a, pool) ↦ (do match_unit b a; pure true) (record w { consume_msg_pool = pool })
        ])
    by_popped w v none = v
    by_popped w v (some (a, pool)) =
        (Keeps-bind {L = L} (match_unit b a) (λ _. pure true) (match_unit-Keeps b a)
            (λ _. Keeps-pure true)).after
          (record w { consume_msg_pool = pool }) v
