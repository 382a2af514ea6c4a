-- ===== src/Matcher/Ends.antt =====
-- Units that the next test of the matcher's inner loop ends, and what leaves them so.
use rocketmq_proxy.Prelude.{
  ℕ, ◌-◌, ◌≤◌, false, List, [], ◌++◌, some, bytes_less, get_elem?, set, get_elem?-set_cases, ◌≡◌,
  ◌⊎◌, inl, inr,
}
use rocketmq_proxy.QueueTs.{QueueTs}
use rocketmq_proxy.MapTs
use rocketmq_proxy.Message.{proxy_consume_init, client_receive, consume_ack}
use rocketmq_proxy.Consumer.{ConsumerUnit}
use rocketmq_proxy.World.{World, Action, ConsumeMsgUnit, ConsumeCallData}

-- A call that can be answered.
abbrev CanAnswer : World → ℕ → Type 0
CanAnswer w a = (d : ConsumeCallData) × (get_elem? w.consume_calls a ≡ some d) × (d.deleted ≡ false)

-- A unit that is acknowledged, or has waited for ten seconds.
abbrev pub IsOver : World → ConsumeMsgUnit → Type 0
IsOver w unit =
    (unit.status ≡ consume_ack)
    ⊎ (((unit.status ≡ client_receive) × (10 ≤ w.now - unit.last_active_at))
        ⊎ ((unit.status ≡ proxy_consume_init)
            × (10 ≤ w.now - unit.last_active_at)
            × CanAnswer w unit.call_data))

-- The unit at an address is over, and its consumer is known and has no batches.
pub record Ends (w : World) (a : ℕ) : Type 0 where
  pub unit : ConsumeMsgUnit
  pub at_a : get_elem? w.consume_msg_units a ≡ some unit
  pub consumer : ℕ
  pub known : MapTs.try_get w.consumers (unit.topic ++ unit.group) ≡ some consumer
  pub u : ConsumerUnit
  pub at_consumer : get_elem? w.consumer_units consumer ≡ some u
  pub idle : u.lockers ≡ []
  pub over : IsOver w unit

-- A consumer that is changed and still has no batches.
pub keep_consumers :
    (w : World) (a k : ℕ) (u' : ConsumerUnit)
    → u'.lockers ≡ []
    → Ends w a
    → Ends (record w { consumer_units = set w.consumer_units k u' }) a
keep_consumers w a k u' idle' e =
    elim (get_elem?-set_cases w.consumer_units k e.consumer u' e.u e.at_consumer) [
      | inl new ↦ record {
        unit = e.unit;
        at_a = e.at_a;
        consumer = e.consumer;
        known = e.known;
        u = u';
        at_consumer = new;
        idle = idle';
        over = e.over;
      }
      | inr old ↦ record {
        unit = e.unit;
        at_a = e.at_a;
        consumer = e.consumer;
        known = e.known;
        u = e.u;
        at_consumer = old;
        idle = e.idle;
        over = e.over;
      }
    ]

keep_call :
    (w : World) (a c : ℕ) (d' : ConsumeCallData)
    → d'.deleted ≡ false
    → CanAnswer w a
    → CanAnswer (record w { consume_calls = set w.consume_calls c d' }) a
keep_call w a c d' alive (d, at_d, alive_d) =
    elim (get_elem?-set_cases w.consume_calls c a d' d at_d) [
      | inl new ↦ (d', new, alive)
      | inr old ↦ (d, old, alive_d)
    ]

keep-IsOver :
    (w : World) (unit : ConsumeMsgUnit) (c : ℕ) (d' : ConsumeCallData)
    → d'.deleted ≡ false
    → IsOver w unit
    → IsOver (record w { consume_calls = set w.consume_calls c d' }) unit
keep-IsOver w unit c d' alive (inl acked) = inl acked
keep-IsOver w unit c d' alive (inr (inl received)) = inr (inl received)
keep-IsOver w unit c d' alive (inr (inr (waiting, late, can))) =
    inr (inr (waiting, late, keep_call w unit.call_data c d' alive can))

-- A call that is answered.
pub keep_calls :
    (w : World) (a c : ℕ) (d' : ConsumeCallData)
    → d'.deleted ≡ false
    → Ends w a
    → Ends (record w { consume_calls = set w.consume_calls c d' }) a
keep_calls w a c d' alive e = record {
  unit = e.unit;
  at_a = e.at_a;
  consumer = e.consumer;
  known = e.known;
  u = e.u;
  at_consumer = e.at_consumer;
  idle = e.idle;
  over = keep-IsOver w e.unit c d' alive e.over;
}

-- The pool and what was handed to the libraries have no part in it.
pub keep_rest :
    (w : World) (a : ℕ) (pool : QueueTs ℕ) (acts : List Action)
    → Ends w a
    → Ends (record w { consume_msg_pool = pool; actions = acts }) a
keep_rest w a pool acts e = record {
  unit = e.unit;
  at_a = e.at_a;
  consumer = e.consumer;
  known = e.known;
  u = e.u;
  at_consumer = e.at_consumer;
  idle = e.idle;
  over = e.over;
}
