-- ===== src/Notify/Missed.antt =====
-- A notification that the matcher misses, and the turn of `notifyTimeout` that makes up for it.
use rocketmq_proxy.Prelude.{
  ℕ, zero, suc, true, false, List, [], ◌∷◌, ◌++◌, some, bytes_less, length, get_elem?, arith, ◌≡◌,
  refl, append-nil, ◌∙◌, get_elem?-append_new, get_elem?-set_self,
}
use rocketmq_proxy.QueueTs
use rocketmq_proxy.MapTs
use rocketmq_proxy.Message.{MsgUnit}
use rocketmq_proxy.Consumer.{ConsumerUnit, fetch}
use rocketmq_proxy.Broker.{Broker}
use rocketmq_proxy.World.{
  World, ok, ConsumeMsgUnit, ConsumeCallData, new_consume_msg_unit, request_consume, finish_consume,
}
use rocketmq_proxy.Calls.{response_success}
use rocketmq_proxy.System.Alive.Consumes.{pooled, taken, with_new, process_call_alive, at_new}
use rocketmq_proxy.Matcher.{match_round}
use rocketmq_proxy.Matcher.Deliveries.{match_unit_deliver, delivered}
use rocketmq_proxy.Matcher.Drained.{match_round_ended, match_round_empty}
use rocketmq_proxy.Notify.{
  Turn, looking, leaving, waiting, matches, ticks, requests, turn, turns, matcher_step,
  request_step, notify_all, tick, MatcherAt,
}

abbrev pub looks : ℕ → List Turn
looks zero = []
looks (suc n) = matches ∷ looks n

-- The matcher that waits goes on waiting, whoever else looks on.
still_waiting :
    (b : Broker) (n : ℕ) (ts : List Turn) (w : World)
    → turns b (looks n ++ ts) waiting w ≡ turns b ts waiting w
unfolding turns turn
still_waiting b zero ts w = refl
still_waiting b (suc n) ts w = still_waiting b n ts w

module _ (b : Broker) (w : World) (a k : ℕ) (d : ConsumeCallData) (u u' : ConsumerUnit)
    (msg : MsgUnit) (empty : w.consume_msg_pool ≡ record { data_queue = [] })
    (at_a : get_elem? w.consume_calls a ≡ some d) (alive : d.deleted ≡ false)
    (known : MapTs.try_get w.consumers (d.request.topic ++ d.request.consumer_group) ≡ some k)
    (at_k : get_elem? w.consumer_units k ≡ some u) (fetched : fetch u ≡ some (some msg, u')) where
  -- The request's unit, and its index.
  abbrev unit : ConsumeMsgUnit
  unit = new_consume_msg_unit w.now a d.request.topic d.request.consumer_group

  abbrev m : ℕ
  m = length w.consume_msg_units

  -- The state after the round that serves the request, up to the pool.
  abbrev served : World
  served =
      let w₀ : World = record (pooled w a d) { consume_msg_pool = record { data_queue = [] } } in
      record (delivered w₀ m k unit u' (taken d) msg) {
        consume_msg_pool = record { data_queue = m ∷ [] };
      }

  serves : match_round b (pooled w a d) ≡ ok (true, served)
  unfolding QueueTs.push new_consume_msg_unit
  serves =
      let w₀ : World = record (pooled w a d) { consume_msg_pool = record { data_queue = [] } } in
      match_round_ended b (pooled w a d) served m [] (ground (arith, empty)) (
        match_unit_deliver b w₀ m k unit u u' (taken d) msg
          (get_elem?-append_new w.consume_msg_units unit) refl known at_k fetched
          (get_elem?-set_self (with_new w).consume_calls a (taken d) d (at_new w a d at_a)) alive)

  looked_lem : turn b matches looking (pooled w a d) ≡ ok (looking, served)
  unfolding turn matcher_step
  looked_lem = ground (arith, serves)

  finds_none : turn b matches looking w ≡ ok (leaving, w)
  unfolding turn matcher_step
  finds_none = ground (arith, match_round_empty b w empty)

  asked : (at : MatcherAt) → turn b (requests a) at w ≡ ok (notify_all at, pooled w a d)
  unfolding turn request_step
  asked at = ground (arith, process_call_alive w a d at_a alive)

  missed :
      (n : ℕ) (ts : List Turn)
      → turns b ((matches ∷ requests a ∷ matches ∷ looks n) ++ ts) looking w
        ≡ turns b ts waiting (pooled w a d)
  unfolding turns turn matcher_step notify_all
  missed n ts = ground (arith, finds_none, asked leaving, still_waiting b n ts (pooled w a d))

  told : turns b (ticks ∷ matches ∷ []) waiting (pooled w a d) ≡ ok (looking, served)
  unfolding turns turn tick notify_all
  told = ground (arith, looked_lem)

  noticed : turns b (matches ∷ matches ∷ requests a ∷ matches ∷ []) looking w ≡ ok (looking, served)
  unfolding turns turn matcher_step notify_all
  noticed = ground (arith, finds_none, asked waiting, looked_lem)

  -- A request comes to a server whose pool is empty and that has a message for it. If it comes when
  -- the matcher waits, it wakes the matcher, which answers it. If it comes after the matcher has
  -- found the pool empty, and before it waits, then it stays in the pool: the matcher waits, however
  -- many turns it is given, and nothing but the next call object's request was handed to the
  -- libraries. Once `notifyTimeout` has had its turn, the matcher answers it, and the state is the
  -- one of the request that is noticed at once. The answer has RESPONSE_SUCCESS and the message's id
  -- and body, and is all that was handed to the libraries besides.
  pub missed_then_served :
      (n : ℕ)
      → (w' : World) × (w'' : World) × (turns b (matches ∷ requests a ∷ matches ∷ looks n) looking w
          ≡ ok (waiting, w'))
        × (w'.consume_msg_pool ≡ record { data_queue = length w.consume_msg_units ∷ [] })
        × (w'.actions ≡ w.actions ++ request_consume (length w.consume_calls) ∷ [])
        × (turns b ((matches ∷ requests a ∷ matches ∷ looks n) ++ ticks ∷ matches ∷ []) looking w
            ≡ ok (looking, w''))
        × (turns b (matches ∷ matches ∷ requests a ∷ matches ∷ []) looking w ≡ ok (looking, w''))
        × (w''.actions
            ≡ w'.actions
              ++ finish_consume a (record {
                code = response_success;
                msg_id = msg.msg_id;
                body = msg.body;
                error_msg = [];
              })
                ∷ [])
  unfolding QueueTs.push new_consume_msg_unit
  missed_then_served n = (
    pooled w a d,
    served,
    (unfold turns in
        ground (arith, append-nil (matches ∷ requests a ∷ matches ∷ looks n), missed n [])),
    ground (arith, empty),
    refl,
    missed n (ticks ∷ matches ∷ []) ∙ told,
    noticed,
    refl,
  )
