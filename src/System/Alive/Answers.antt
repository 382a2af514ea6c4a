-- ===== src/System/Alive/Answers.antt =====
-- The matcher answers a call that waits: with a message, or because it has waited too long.
use rocketmq_proxy.Prelude.{
  ℕ, true, false, List, [], ◌∷◌, ◌++◌, some, bytes, bytes_less, ap, get_elem?, set, arith, ◌≡◌,
  refl, inl, inr, ℕ_discrete, get_elem?-set_self, length-set, All-mono, Bool-cases, is_some,
}
use rocketmq_proxy.StdMap
use rocketmq_proxy.StdMap.Values.{AllValues, insert-AllValues, assign-AllValues}
use rocketmq_proxy.QueueTs
use rocketmq_proxy.MapTs
use rocketmq_proxy.Message.{MsgUnit}
use rocketmq_proxy.World.{
  World, M, ◌>>◌, modify, process, finish, ConsumeCallData, ConsumeMsgUnit, is_init, Action,
  finish_consume,
}
use rocketmq_proxy.Worker.{reset_consumer_active, write_log}
use rocketmq_proxy.Calls
use rocketmq_proxy.Calls.{response_msg, response_time_out}
use rocketmq_proxy.Matcher.{deliver, get_unit, put_unit, proxy_logger_type_consume}
use rocketmq_proxy.Matcher.Rounds.{ended_by_timeout}
use rocketmq_proxy.Matcher.Deliveries.{answered, received, consume_log}
use rocketmq_proxy.System.{Step}
use rocketmq_proxy.System.Alive.Changes.{Fits-finish}
use rocketmq_proxy.System.Alive.Found.{find_waiting}
use rocketmq_proxy.System.Alive.Pool.{waiting, waiting-set, InRange-same, IsSettled, set-IsSettled}
use rocketmq_proxy.System.Alive.Quiet.{
  Hidden, with_hidden, IsSound, Nothing, reset_consumer_active-Quiet,
}
use rocketmq_proxy.System.Alive.Kinds.{Consumes, consume_view, Produces-emit, Acks-emit}
use rocketmq_proxy.System.Alive.Invariant.{IsAlive, Runs, Runs-ran, Runs-bind, Quiet-bind, Leaves}
use rocketmq_proxy.System.Alive.Matches.{IsHeld, held, settled_waits, init_waits}

module _ (past : List Step) (w : World) (p : ℕ) (unit : ConsumeMsgUnit)
    (at_p : get_elem? w.consume_msg_units p ≡ some unit) (yet : is_init unit.status ≡ true)
    (v : IsHeld past w p) where
  abbrev units : List ConsumeMsgUnit
  units = w.consume_msg_units

  abbrev pool : List ℕ
  pool = w.consume_msg_pool.data_queue

  -- The call object that the unit waits to answer, for which nothing else waits.
  abbrev Caller : Type 0
  Caller =
      (d : ConsumeCallData) × (get_elem? w.consume_calls unit.call_data ≡ some d)
      × (consume_view d ≡ (process, false))

  caller : Caller × (held units pool p unit.call_data ≡ 1)
  caller =
      find_waiting consume_view Calls.request_consume w.consume_calls w.actions past
        (held units pool p) unit.call_data v.consumes
        (ground (arith, init_waits units p unit unit.call_data at_p yet))

  none_else : waiting units pool unit.call_data ≡ 0
  none_else = ground (arith, init_waits units p unit unit.call_data at_p yet, caller.1)

  -- The answer.
  answer-Consumes :
      (q : ℕ → ℕ) (d d' : ConsumeCallData)
      → get_elem? w.consume_calls unit.call_data ≡ some d
      → consume_view d ≡ (process, false)
      → consume_view d' ≡ (finish, false)
      → ((i : ℕ) → q i ≡ waiting units pool i)
      → Consumes
          (set w.consume_calls unit.call_data d')
          (w.actions ++ finish_consume unit.call_data d'.reply ∷ [])
          past
          q
  answer-Consumes q d d' at_d e e' same =
      Fits-finish consume_view Calls.request_consume w.consume_calls w.actions past
        (held units pool p) unit.call_data d at_d v.consumes d'
        (finish_consume unit.call_data d'.reply) q e e' (λ i. (refl, refl))
        (λ i. ground (arith, init_waits units p unit i at_p yet, same i))

  -- A call that ends because it has waited too long; its unit leaves the pool.
  pub response_time_out-Runs : Runs (response_time_out unit.call_data) w (Leaves (IsAlive past))
  unfolding response_time_out
  response_time_out-Runs =
      let (d, at_d, e) = caller.0 in
      let alive : d.deleted ≡ false = ap (λ s. s.1) e in
      let x : Action = finish_consume unit.call_data (ended_by_timeout d).reply in
      Runs-ran _ w
        (record w {
          consume_calls = set w.consume_calls unit.call_data (ended_by_timeout d);
          actions = w.actions ++ x ∷ [];
        })
        tt _ (ground (arith, at_d, alive))
        (record {
          produces =
              Produces-emit w.produce_calls w.actions past x (λ i. (refl, refl)) (λ i. refl)
                v.produces;
          consumes =
              answer-Consumes (waiting units pool) d (ended_by_timeout d) at_d e
                (ap (λ s. (finish, s.1)) e) (λ i. refl);
          acks = Acks-emit w.consume_ack_calls w.actions past x (λ i. (refl, refl)) v.acks;
          in_range = v.in_range;
          settled = v.settled;
          sound = v.sound;
        })

  -- The state after the answer to a call that gets a message.
  abbrev delivered : ConsumeCallData → MsgUnit → World
  delivered d msg = record w {
    consume_msg_units = set units p (received unit msg);
    id_unit_map = MapTs.insert_or_update w.id_unit_map msg.msg_id p;
    consume_calls = set w.consume_calls unit.call_data (answered d msg);
    actions = w.actions ++ finish_consume unit.call_data (answered d msg).reply ∷ [];
  }

  over_at : (msg : MsgUnit) → IsSettled (set units p (received unit msg)) p
  over_at msg = (received unit msg, get_elem?-set_self units p (received unit msg) unit at_p, refl)

  held_after :
      (msg : MsgUnit) (i : ℕ)
      → held (set units p (received unit msg)) pool p i ≡ waiting units pool i
  unfolding over_at
  held_after msg i =
      let u' = received unit msg in
      let zero_here = settled_waits (set units p u') p u' i (over_at msg).1 refl in
      let others : waiting (set units p u') pool i ≡ waiting units pool i =
        waiting-set units p unit u' at_p refl pool i (elim (ℕ_discrete i unit.call_data) [
          | yes e ↦ inr (rw e none_else)
          | no ne ↦ inl (ground (arith, yet, ne))
        ]) in
      omega arith

  insert_or_update-settled :
      (msg : MsgUnit)
      → AllValues
          (IsSettled (set units p (received unit msg)))
          (MapTs.insert_or_update w.id_unit_map msg.msg_id p).the_map
  unfolding MapTs.insert_or_update
  insert_or_update-settled msg =
      let u' = received unit msg in
      let old =
        All-mono _ _ w.id_unit_map.the_map (λ e k. set-IsSettled units p e.1 u' refl k) v.settled in
      elim (Bool-cases (is_some (StdMap.find msg.msg_id w.id_unit_map.the_map))) [
        | inl known ↦
            rw known (assign-AllValues _ msg.msg_id p w.id_unit_map.the_map (over_at msg) old)
        | inr unknown ↦
            rw unknown (insert-AllValues _ msg.msg_id p w.id_unit_map.the_map (over_at msg) old)
      ]

  delivered-IsHeld :
      (d : ConsumeCallData) (msg : MsgUnit) (h : Hidden)
      → get_elem? w.consume_calls unit.call_data ≡ some d
      → consume_view d ≡ (process, false)
      → IsSound h
      → IsHeld past (with_hidden (delivered d msg) h) p
  delivered-IsHeld d msg h at_d e sound =
      let x : Action = finish_consume unit.call_data (answered d msg).reply in
      let u' = received unit msg in
      let units' = set units p u' in
      record {
        produces =
            Produces-emit w.produce_calls w.actions past x (λ i. (refl, refl)) (λ i. refl)
              v.produces;
        consumes =
            answer-Consumes (held units' pool p) d (answered d msg) at_d e
              (ap (λ s. (finish, s.1)) e) (held_after msg);
        acks = Acks-emit w.consume_ack_calls w.actions past x (λ i. (refl, refl)) v.acks;
        there = omega (arith, length-set units p u', v.there);
        in_range = InRange-same units units' pool (length-set units p u') v.in_range;
        settled = insert_or_update-settled msg;
        sound = sound;
      }

  -- A message goes to the call: the unit is held still.
  pub deliver-Runs : (msg : MsgUnit) → Runs (deliver p msg) w (λ _ w'. IsHeld past w' p)
  unfolding deliver response_msg
  deliver-Runs msg =
      let (d, at_d, e) = caller.0 in
      let alive : d.deleted ≡ false = ap (λ s. s.1) e in
      let log : M (Unit {0}) =
        write_log proxy_logger_type_consume msg.msg_id msg.topic msg.group msg.body msg.delay_level
          0 in
      let active = reset_consumer_active unit.topic unit.group in
      let map_id : M (Unit {0}) =
        modify λ w. record w { id_unit_map = MapTs.insert_or_update w.id_unit_map msg.msg_id p } in
      let reply = response_msg unit.call_data 0 (bytes "") msg.msg_id msg.body in
      let u' = received unit msg in
      let marked : World = record w { consume_msg_units = set units p u' } in
      let mapped : World = record marked {
        id_unit_map = MapTs.insert_or_update w.id_unit_map msg.msg_id p;
      } in
      let rest =
        Quiet-bind (reset_consumer_active unit.topic unit.group) (λ _. log) (delivered d msg)
          Nothing (λ _ w'. IsHeld past w' p)
          (reset_consumer_active-Quiet (delivered d msg) v.sound unit.topic unit.group)
          (λ _ h sound _.
            let h' : Hidden = record h { log_queue = QueueTs.push h.log_queue (consume_log msg) } in
            Runs-ran log (with_hidden (delivered d msg) h) (with_hidden (delivered d msg) h') tt _
              (unfold write_log in refl)
              (delivered-IsHeld d msg h' at_d e
                (record { batches = sound.batches; known = sound.known }))) in
      Runs-bind (get_unit p) _ w w unit _ (ground (arith, at_p)) (
        Runs-bind (put_unit p u') (λ _. map_id >> (reply >> (active >> log))) w marked tt _ refl
          (Runs-bind map_id (λ _. reply >> (active >> log)) marked mapped tt _ refl
            (Runs-bind reply (λ _. active >> log) mapped (delivered d msg) tt _
              (ground (arith, at_d, alive)) rest)))
