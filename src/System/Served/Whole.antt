-- ===== src/System/Served/Whole.antt =====
-- The way of one message through the whole server.
use rocketmq_proxy.Consumer.Routing.{any_knows, set_msg_ack_lem}
use rocketmq_proxy.Prelude.{
  sym, ap, Bool, ℕ, true, false, [], ◌∷◌, ◌++◌, some, Bytes, bytes, nat_less, bytes_less, get_elem?,
  set, arith, ◌≡◌, ◌∙◌, length, length-set, if◌then◌else◌, ◌==◌, get_elem?-set_self,
}
use rocketmq_proxy.QueueTs
use rocketmq_proxy.MapTs
use rocketmq_proxy.MapTs.Updates.{try_get-insert_or_update}
use rocketmq_proxy.Message.{
  MqMessageExt, ConsumeStatus, proxy_consume_init, consume_ack, reconsume_later, consume_success,
}
use rocketmq_proxy.Locker.{ConsumerUnitLocker, msg_unit}
use rocketmq_proxy.Consumer.{ConsumerUnit, report}
use rocketmq_proxy.Broker.{Broker}
use rocketmq_proxy.Proto.{ConsumeAckRequest}
use rocketmq_proxy.World.{
  World, ok, process, ConsumeMsgUnit, ConsumeCallData, ConsumeAckCallData, finish_consume,
  finish_consume_ack,
}
use rocketmq_proxy.World
use rocketmq_proxy.Matcher.{match_round}
use rocketmq_proxy.Matcher.Drained.{match_round_ended}
use rocketmq_proxy.Matcher.Deliveries.{match_unit_deliver, delivered, received}
use rocketmq_proxy.Calls.{request_consume_ack}
use rocketmq_proxy.Calls.ConsumeAck
use rocketmq_proxy.Calls.ConsumeAck.Branches.{process_call_known}
use rocketmq_proxy.Calls.ConsumeAck.Branches
use rocketmq_proxy.Server.{handle}
use rocketmq_proxy.System.{
  arrive, receive_ack, depart, step, steps, arrives, matches, receives_ack, handles,
}
use rocketmq_proxy.System.Served.{
  fresh_batch, taken_batch, acked_batch, holding, wait_lock-one, fetch-one, set_msg_ack-one,
  leave-one, report-one,
}

module _ (b : Broker) (w : World) (k addr p a x : ℕ) (g : Bytes) (m : MqMessageExt)
    (unit : ConsumeMsgUnit) (u : ConsumerUnit) (d : ConsumeCallData) (e : ConsumeAckCallData)
    (s : ConsumeStatus) (pooled : w.consume_msg_pool ≡ record { data_queue = a ∷ [] })
    (at_a : get_elem? w.consume_msg_units a ≡ some unit)
    (waiting : unit.status ≡ proxy_consume_init)
    (known : MapTs.try_get w.consumers (unit.topic ++ unit.group) ≡ some k)
    (at_k : get_elem? w.consumer_units k ≡ some u) (idle : u.lockers ≡ [])
    (at_d : get_elem? w.consume_calls unit.call_data ≡ some d) (alive : d.deleted ≡ false)
    (at_x : get_elem? w.consume_ack_calls x ≡ some e) (alive_e : e.deleted ≡ false)
    (ready : e.status ≡ process) where
  abbrev pub request : ConsumeAckRequest
  request = record {
    topic = unit.topic;
    msg_id = m.msg_id;
    consumer_group = unit.group;
    status = s;
  }

  -- The batch that waits, and the one whose message is taken.
  abbrev fresh : ConsumerUnit
  fresh = holding w.now p g m addr u (fresh_batch w.now p g m)

  abbrev arrived : World
  arrived = record w { consumer_units = set w.consumer_units k fresh }

  arrive-arrived : arrive k addr g ((p, m) ∷ []) w ≡ ok (tt, arrived)
  unfolding arrive
  arrive-arrived = ground (arith, wait_lock-one w.now p g m addr u idle)

  abbrev taken : ConsumerUnit
  taken = holding w.now p g m addr u (taken_batch w.now p g m)

  abbrev popped : World
  popped = record arrived { consume_msg_pool = record { data_queue = [] } }

  abbrev matched : World
  matched =
      let w' : World = delivered popped a k unit taken d (msg_unit w.now g m) in
      record w' { consume_msg_pool = QueueTs.push popped.consume_msg_pool a }

  match_round-matched : match_round b arrived ≡ ok (true, matched)
  match_round-matched = match_round_ended b arrived matched a [] pooled (
      match_unit_deliver b popped a k unit fresh taken d (msg_unit w.now g m) at_a waiting known
        (get_elem?-set_self w.consumer_units k fresh u at_k) (fetch-one w.now p g m addr u) at_d
        alive)

  -- The acknowledge call with the client's request.
  abbrev asked : ConsumeAckCallData
  asked = record e { request = request }

  abbrev requested : World
  requested = record matched { consume_ack_calls = set w.consume_ack_calls x asked }

  receive_ack-requested : receive_ack x request matched ≡ ok (tt, requested)
  unfolding receive_ack
  receive_ack-requested = ground arith

  -- The consumer's unit after the delivery.
  abbrev delivered_to : ConsumerUnit
  delivered_to = record taken { last_active_at = w.now }

  at_k₁ : get_elem? arrived.consumer_units k ≡ some fresh
  at_k₁ = get_elem?-set_self w.consumer_units k fresh u at_k

  at_k₂ : get_elem? requested.consumer_units k ≡ some delivered_to
  at_k₂ =
      get_elem?-set_self (set arrived.consumer_units k taken) k delivered_to taken
        (get_elem?-set_self arrived.consumer_units k taken fresh at_k₁)

  taken_by :
      ◌≡◌ {A = Bool × ConsumerUnit}
        (
          any_knows m.msg_id delivered_to.lockers,
          Branches.acknowledged requested delivered_to asked,
        )
        (true, holding w.now p g m addr delivered_to (acked_batch w.now p g m s))
  taken_by =
      sym (set_msg_ack_lem m.msg_id s delivered_to)
      ∙ set_msg_ack-one w.now p g m addr delivered_to s

  -- The state at the end.
  abbrev acknowledged : World
  acknowledged =
      let w' : World = Branches.routed requested x k delivered_to asked in
      Branches.finished_with
        (record w' {
          consume_msg_units =
              set requested.consume_msg_units a
                (record (received unit (msg_unit w.now g m)) { status = consume_ack });
          log_queue = QueueTs.push requested.log_queue (Branches.ack_log asked);
        })
        x asked 0 (bytes "msg ack succ!")

  process_call-acknowledged : ConsumeAck.process_call b x requested ≡ ok (tt, acknowledged)
  unfolding msg_unit
  process_call-acknowledged =
      (process_call_known b requested x k delivered_to asked
        (get_elem?-set_self w.consume_ack_calls x asked e at_x) alive_e known at_k₂ a
        (received unit (msg_unit w.now g m)) (ap (λ r. r.0) taken_by)
        (try_get-insert_or_update w.id_unit_map m.msg_id a)
        (get_elem?-set_self w.consume_msg_units a (received unit (msg_unit w.now g m)) unit at_a)).0

  handle-acknowledged :
      handle b (record { type_ = request_consume_ack; address = x }) true requested
      ≡ ok (tt, acknowledged)
  unfolding handle ConsumeAck.proceed
  handle-acknowledged =
      ground
        (arith, get_elem?-set_self w.consume_ack_calls x asked e at_x, process_call-acknowledged)

  abbrev acked_unit : ConsumerUnit
  acked_unit = holding w.now p g m addr delivered_to (acked_batch w.now p g m s)

  at_k₃ : get_elem? acknowledged.consumer_units k ≡ some acked_unit
  at_k₃ =
      get_elem?-set_self (set requested.consumer_units k delivered_to) k
        (Branches.acknowledged requested delivered_to asked) delivered_to
        (get_elem?-set_self requested.consumer_units k delivered_to delivered_to at_k₂)
      ∙ ap (λ r. some r.1) taken_by

  depart-acknowledged :
      depart k addr acknowledged
      ≡ ok (
        some (acked_batch w.now p g m s),
        record acknowledged {
          consumer_units = set acknowledged.consumer_units k (record acked_unit { lockers = [] });
        },
      )
  unfolding depart
  depart-acknowledged = ground (arith, at_k₃, leave-one w.now p g m addr delivered_to s)

  steps-acknowledged :
      steps b
        (arrives k addr g ((p, m) ∷ [])
          ∷ matches
          ∷ receives_ack x request
          ∷ handles (record { type_ = request_consume_ack; address = x }) true
          ∷ [])
        w
      ≡ ok (tt, acknowledged)
  unfolding steps step
  steps-acknowledged =
      ground
        (arith, arrive-arrived, match_round-matched, receive_ack-requested, handle-acknowledged)

  -- A request waits alone in the pool, its consumer is known and has no batches, and a call object
  -- waits for an acknowledgement. Then the broker brings a batch of one message, the matcher has a
  -- turn, and the client acknowledges the message with a status: the client is answered with the
  -- message's id and body, the acknowledgement is answered with the code 0, and the broker's
  -- callback returns. It reports `RECONSUME_LATER` for the batch and the message if that is the
  -- status, and else `CONSUME_SUCCESS`.
  pub message_served :
      (w' : World) × (w'' : World) × (l : ConsumerUnitLocker) × (steps b
          (arrives k addr g ((p, m) ∷ [])
            ∷ matches
            ∷ receives_ack x request
            ∷ handles (record { type_ = request_consume_ack; address = x }) true
            ∷ [])
          w
        ≡ ok (tt, w'))
      × (w'.actions
          ≡ ((w.actions
                ++ finish_consume unit.call_data
                    (record { code = 0; msg_id = m.msg_id; body = m.body; error_msg = [] })
                  ∷ [])
              ++ World.request_consume_ack (length w.consume_ack_calls) ∷ [])
            ++ finish_consume_ack x
                (record { code = 0; msg_id = e.reply.msg_id; error_msg = bytes "msg ack succ!" })
              ∷ [])
      × (depart k addr w' ≡ ok (some l, w''))
      × (report l (m ∷ []) ≡ (
          if s == reconsume_later
          then (reconsume_later, reconsume_later ∷ [])
          else (consume_success, [])))
  unfolding msg_unit
  message_served = (
    acknowledged,
    record acknowledged {
      consumer_units = set acknowledged.consumer_units k (record acked_unit { lockers = [] });
    },
    acked_batch w.now p g m s,
    steps-acknowledged,
    rw (length-set w.consume_ack_calls x asked),
    depart-acknowledged,
    report-one w.now p g m addr s,
  )
