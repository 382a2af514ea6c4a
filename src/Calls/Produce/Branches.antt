-- ===== src/Calls/Produce/Branches.antt =====
-- What becomes of a request to send a message: the checks and the message that is sent.
use rocketmq_proxy.Prelude.{
  ℕ, true, false, [], ◌∷◌, ◌++◌, none, some, Bytes, bytes, bytes_less, length, get_elem?, set,
  arith, ◌≡◌, get_elem?-append_new, get_elem?-append_old, set-append_new,
}
use rocketmq_proxy.StdMap.{find}
use rocketmq_proxy.Broker.{Broker, MqMessage}
use rocketmq_proxy.World.{
  World, ok, fault, Fault, process, finish, ProduceCallData, ProducerUnit, request_produce,
  finish_produce, send,
}
use rocketmq_proxy.Worker.{new_producer, produce}
use rocketmq_proxy.Proto.{ProduceRequest}
use rocketmq_proxy.Calls.{response_error}
use rocketmq_proxy.Calls.Produce.{new, new_produce_call, process_call, fail_with, lacks_param}

abbrev pub waiting_call : ProduceCallData
waiting_call = record new_produce_call { status = process }

-- The constructor makes a call object that waits for the next request.
abbrev pub with_new : World → World
with_new w = record w {
  produce_calls = w.produce_calls ++ waiting_call ∷ [];
  actions = w.actions ++ request_produce (length w.produce_calls) ∷ [];
}

pub new_lem : (w : World) → new w ≡ ok (length w.produce_calls, with_new w)
unfolding new
new_lem w = ground (
  arith,
  get_elem?-append_new w.produce_calls new_produce_call,
  set-append_new w.produce_calls new_produce_call waiting_call,
)

-- The message that goes out for a request: whatever delay level the client asks for, it has none.
abbrev pub outgoing : ProduceRequest → MqMessage
outgoing r = record { topic = r.topic; tags = r.tag; body = r.body; delay_time_level = 0 }

abbrev pub failed : ProduceCallData → Bytes → ProduceCallData
failed d text = record d {
  reply = record { code = response_error; msg_id = d.reply.msg_id; err_msg = text };
  status = finish;
}

-- The end of a call with an error.
abbrev pub finished_with : World → ℕ → ProduceCallData → Bytes → World
finished_with w a d text = record w {
  produce_calls = set w.produce_calls a (failed d text);
  actions = w.actions ++ finish_produce a (failed d text).reply ∷ [];
}

pub fail_with_lem :
    (w : World) (a : ℕ) (d : ProduceCallData) (text : Bytes)
    → get_elem? w.produce_calls a ≡ some d
    → d.deleted ≡ false
    → fail_with a text w ≡ ok (tt, finished_with w a d text)
unfolding fail_with
fail_with_lem w a d text at_a alive = ground arith

pub with_new_keeps :
    (w : World) (a : ℕ) (d : ProduceCallData)
    → get_elem? w.produce_calls a ≡ some d
    → get_elem? (with_new w).produce_calls a ≡ some d
with_new_keeps w a d at_a = get_elem?-append_old w.produce_calls (waiting_call ∷ []) a d at_a

produce_known :
    (b : Broker) (w : World) (a : ℕ) (r : ProduceRequest) (p : ProducerUnit)
    → find (r.topic ++ r.group) w.producers ≡ some p
    → b.send (outgoing r) w.now ≡ none
    → produce b a r.topic r.group r.tag r.body 0 w
      ≡ ok (none, record w { actions = w.actions ++ send a (outgoing r) ∷ [] })
unfolding produce
produce_known b w a r p known sent = ground arith

-- A request that lacks its topic, group, tag or body is answered with `RESPONSE_ERROR` and
-- "params error!"; no producer is looked up and nothing is sent.
pub process_call_params :
    (b : Broker) (w : World) (a : ℕ) (d : ProduceCallData)
    → get_elem? w.produce_calls a ≡ some d
    → d.deleted ≡ false
    → lacks_param d.request ≡ true
    → process_call b a w ≡ ok (tt, finished_with (with_new w) a d (bytes "params error!"))
unfolding process_call
process_call_params b w a d at_a alive lacking = ground (
  arith,
  new_lem w,
  with_new_keeps w a d at_a,
  fail_with_lem (with_new w) a d (bytes "params error!"),
)

-- A complete request whose producer is known and whose `send` does not throw: one message goes out,
-- with the request's topic, tag and body, and with the delay level 0, whatever the request's is.
pub process_call_sends :
    (b : Broker) (w : World) (a : ℕ) (d : ProduceCallData) (p : ProducerUnit)
    → get_elem? w.produce_calls a ≡ some d
    → d.deleted ≡ false
    → lacks_param d.request ≡ false
    → find (d.request.topic ++ d.request.group) w.producers ≡ some p
    → b.send (outgoing d.request) w.now ≡ none
    → process_call b a w
      ≡ ok (
        tt,
        record (with_new w) { actions = (with_new w).actions ++ send a (outgoing d.request) ∷ [] },
      )
unfolding process_call
process_call_sends b w a d p at_a alive complete known sent = ground (
  arith,
  new_lem w,
  with_new_keeps w a d at_a,
  produce_known b (with_new w) a d.request p known sent,
)

-- A complete request for a producer that cannot be started ends the process: `getProducer` returns
-- a null pointer, and `produce` follows it.
pub process_call_null :
    (b : Broker) (w : World) (a : ℕ) (d : ProduceCallData)
    → get_elem? w.produce_calls a ≡ some d
    → d.deleted ≡ false
    → lacks_param d.request ≡ false
    → find (d.request.topic ++ d.request.group) w.producers ≡ none
    → b.producer_start (new_producer d.request.topic d.request.group w).producer w.now ≡ false
    → process_call b a w ≡ fault Fault.null_pointer
unfolding process_call produce
process_call_null b w a d at_a alive complete unknown refused =
    ground (arith, new_lem w, with_new_keeps w a d at_a)
