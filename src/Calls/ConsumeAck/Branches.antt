-- ===== src/Calls/ConsumeAck/Branches.antt =====
-- `process` of an acknowledgement, on both branches.
use rocketmq_proxy.Prelude.{
  All, ℕ, true, false, [], ◌∷◌, ◌++◌, some, Bytes, bytes, bytes_less, length, get_elem?, set, arith,
  ◌≡◌, get_elem?-set_self, get_elem?-append_new, get_elem?-append_old, set-append_new,
}
use rocketmq_proxy.QueueTs
use rocketmq_proxy.MapTs
use rocketmq_proxy.Message.{consume_ack}
use rocketmq_proxy.Locker.History.{step, acks}
use rocketmq_proxy.Consumer.{ConsumerUnit}
use rocketmq_proxy.Consumer.Recorded.{AckedIn, each-AckedIn}
use rocketmq_proxy.Consumer.Routing.{any_knows, each, set_msg_ack_lem}
use rocketmq_proxy.Broker.{Broker}
use rocketmq_proxy.World.{
  World, ok, process, finish, ConsumeMsgUnit, ConsumeAckCallData, request_consume_ack,
  finish_consume_ack, LogUnit,
}
use rocketmq_proxy.Worker.Consumers.{get_consumer_known}
use rocketmq_proxy.Matcher.Rounds.{reset_consumer_active_known}
use rocketmq_proxy.Calls.{response_success, response_error}
use rocketmq_proxy.Calls.ConsumeAck.{
  new, new_consume_ack_call, process_call, proxy_logger_type_consume_acl,
}

-- The constructor makes a call object that waits for the next acknowledgement.
abbrev pub with_new : World → World
with_new w = record w {
  consume_ack_calls = w.consume_ack_calls ++ record new_consume_ack_call { status = process } ∷ [];
  actions = w.actions ++ request_consume_ack (length w.consume_ack_calls) ∷ [];
}

pub new_lem : (w : World) → new w ≡ ok (length w.consume_ack_calls, with_new w)
unfolding new
new_lem w = ground (
  arith,
  get_elem?-append_new w.consume_ack_calls new_consume_ack_call,
  set-append_new w.consume_ack_calls new_consume_ack_call
      (record new_consume_ack_call { status = process }),
)

-- The call with the members that `process` copies from the request.
abbrev pub taken : ConsumeAckCallData → ConsumeAckCallData
taken d = record d {
  msg_id = d.request.msg_id;
  group = d.request.consumer_group;
  topic = d.request.topic;
}

abbrev pub answered : ConsumeAckCallData → ℕ → Bytes → ConsumeAckCallData
answered d code text = record (taken d) {
  reply = record { code = code; msg_id = d.reply.msg_id; error_msg = text };
  status = finish;
}

abbrev pub ack_log : ConsumeAckCallData → LogUnit
ack_log d = record {
  type = proxy_logger_type_consume_acl;
  msg_id = d.request.msg_id;
  topic = d.request.topic;
  group = d.request.consumer_group;
  body = [];
  delay_level = 0;
  status = d.request.status;
}

-- The consumer, active now.
abbrev pub active : World → ConsumerUnit → ConsumerUnit
active w u = record u { last_active_at = w.now }

-- The consumer when each of its batches has got the acknowledgement and was looked at for its end.
abbrev pub acknowledged : World → ConsumerUnit → ConsumeAckCallData → ConsumerUnit
acknowledged w u d = record u {
  lockers = each (λ l. step l (acks d.request.msg_id d.request.status)) u.lockers;
  last_active_at = w.now;
}

-- The state when the outcome is known: the call has copied its request, a new call object waits,
-- the consumer is active and its batches have the acknowledgement.
abbrev pub routed : World → ℕ → ℕ → ConsumerUnit → ConsumeAckCallData → World
routed w a k u d = record (with_new w) {
  consumer_units = set (set w.consumer_units k (active w u)) k (acknowledged w u d);
  consume_ack_calls = set (with_new w).consume_ack_calls a (taken d);
}

abbrev pub finished_with : World → ℕ → ConsumeAckCallData → ℕ → Bytes → World
finished_with w a d code text = record w {
  consume_ack_calls = set w.consume_ack_calls a (answered d code text);
  actions = w.actions ++ finish_consume_ack a (answered d code text).reply ∷ [];
}

module _ (b : Broker) (w : World) (a k : ℕ) (u : ConsumerUnit) (d : ConsumeAckCallData)
    (at_a : get_elem? w.consume_ack_calls a ≡ some d) (alive : d.deleted ≡ false)
    (known : MapTs.try_get w.consumers (d.request.topic ++ d.request.consumer_group) ≡ some k)
    (at_k : get_elem? w.consumer_units k ≡ some u) where
  at_a' : get_elem? (with_new w).consume_ack_calls a ≡ some d
  at_a' =
      get_elem?-append_old w.consume_ack_calls
        (record new_consume_ack_call { status = process } ∷ []) a d at_a

  -- An acknowledgement of a message id of which no batch of the consumer has a message: the client
  -- is told so with `RESPONSE_ERROR` and a text that names the id; each batch of the consumer is
  -- looked at for its end; nothing is logged, and no waiting unit is touched.
  pub process_call_unknown :
      any_knows d.request.msg_id u.lockers ≡ false
      → process_call b a w
        ≡ ok (
          tt,
          finished_with
              (routed w a k u d)
              a
              d
              response_error
              (bytes "msg[" ++ (d.request.msg_id ++ bytes "] cannot be found!")),
        )
  unfolding process_call
  process_call_unknown missing = ground (
    arith,
    new_lem w,
    at_a',
    reset_consumer_active_known d.request.topic d.request.consumer_group
        (record (with_new w) { consume_ack_calls = set (with_new w).consume_ack_calls a (taken d) })
        k u known at_k,
    get_consumer_known b d.request.topic d.request.consumer_group
        (record (with_new w) {
          consumer_units = set w.consumer_units k (active w u);
          consume_ack_calls = set (with_new w).consume_ack_calls a (taken d);
        })
        k known,
    get_elem?-set_self w.consumer_units k (active w u) u at_k,
    get_elem?-set_self (with_new w).consume_ack_calls a (taken d) d at_a',
    set_msg_ack_lem d.request.msg_id d.request.status (active w u),
  )

  -- An acknowledgement of a message id that some batch of the consumer has, and whose unit is still
  -- known: every message with that id, in every batch of the consumer, is acknowledged with the
  -- client's status, and each batch is looked at for its end; the unit is marked `CONSUME_ACK`, so
  -- that the matcher drops it; the acknowledgement is logged with the client's status, and the
  -- client is answered with `RESPONSE_SUCCESS`.
  pub process_call_known :
      (x : ℕ) (unit : ConsumeMsgUnit)
      → any_knows d.request.msg_id u.lockers ≡ true
      → MapTs.try_get w.id_unit_map d.request.msg_id ≡ some x
      → get_elem? w.consume_msg_units x ≡ some unit
      → (process_call b a w
          ≡ ok (
            tt,
            finished_with
                (record (routed w a k u d) {
                  consume_msg_units =
                      set w.consume_msg_units x (record unit { status = consume_ack });
                  log_queue = QueueTs.push w.log_queue (ack_log d);
                })
                a
                d
                response_success
                (bytes "msg ack succ!"),
          ))
        × All (λ e. AckedIn d.request.msg_id d.request.status e.1) (acknowledged w u d).lockers
  unfolding process_call
  process_call_known x unit taken_by mapped at_x = (
    ground (
      arith,
      new_lem w,
      at_a',
      reset_consumer_active_known d.request.topic d.request.consumer_group
          (record (with_new w) {
            consume_ack_calls = set (with_new w).consume_ack_calls a (taken d);
          })
          k u known at_k,
      get_consumer_known b d.request.topic d.request.consumer_group
          (record (with_new w) {
            consumer_units = set w.consumer_units k (active w u);
            consume_ack_calls = set (with_new w).consume_ack_calls a (taken d);
          })
          k known,
      get_elem?-set_self w.consumer_units k (active w u) u at_k,
      get_elem?-set_self (with_new w).consume_ack_calls a (taken d) d at_a',
      set_msg_ack_lem d.request.msg_id d.request.status (active w u),
    ),
    each-AckedIn d.request.msg_id d.request.status u.lockers,
  )
