-- ===== src/Calls/Consume.antt =====
-- ConsumeCallData.h and ConsumeCallData.cpp: a client's request for a message.
use rocketmq_proxy.Prelude.{ℕ, true, false, [], ◌∷◌, ◌++◌, Bytes, bytes_less, length}
use rocketmq_proxy.QueueTs
use rocketmq_proxy.MapTs
use rocketmq_proxy.Broker.{Broker}
use rocketmq_proxy.World.{
  M, pure, ◌>>=◌, ◌>>◌, read, modify, emit, CallStatus, process, finish, ConsumeCallData,
  request_consume, new_consume_msg_unit,
}
use rocketmq_proxy.Proto.{empty_consume_request, empty_consume_reply}
use rocketmq_proxy.Worker.{get_consumer}
use rocketmq_proxy.Matcher.{reconsume}
use rocketmq_proxy.Calls.{get_consume, put_consume, proceed_by, construct_base, assert_finish}

abbrev pub new_consume_call : ConsumeCallData
new_consume_call = record {
  status = CallStatus.create;
  request = empty_consume_request;
  reply = empty_consume_reply;
  msg_id = [];
  topic = [];
  group = [];
  deleted = false;
}

unfoldable pub create : ℕ → M (Unit {0})
create a = do
  c ← get_consume a
  put_consume a (record c { status = process })
  emit (request_consume a)

-- The constructor: the base's, and a `Proceed` that calls `create`, since the status is `CREATE`.
unfoldable pub new : M ℕ
unfolding create
new = do
  a ← read (λ w. length w.consume_calls)
  modify λ w. record w { consume_calls = w.consume_calls ++ new_consume_call ∷ [] }
  construct_base
  create a
  pure a

unfoldable pub del : ℕ → M (Unit {0})
del a = do c ← get_consume a; assert_finish c.status; put_consume a (record c { deleted = true })

-- The unit goes to the pool; the matcher is notified.
unfoldable pub process_call : ℕ → M (Unit {0})
unfolding new new_consume_msg_unit QueueTs.push
process_call a = do
  _ ← new
  c ← get_consume a
  put_consume a (record c { topic = c.request.topic; group = c.request.consumer_group })
  unit ← read (λ w. length w.consume_msg_units)
  modify λ w. record w {
    consume_msg_units =
        w.consume_msg_units
        ++ new_consume_msg_unit w.now a c.request.topic c.request.consumer_group ∷ [];
    consume_msg_pool = QueueTs.push w.consume_msg_pool unit;
  }

-- The message that was handed out, if any, is to be consumed again.
abbrev pub give_back : Broker → ConsumeCallData → Bytes → M (Unit {0})
give_back b c [] = pure tt
give_back b c (x ∷ xs) = do
  consumer ← get_consumer b c.topic c.group
  reconsume consumer (x ∷ xs)
  modify λ w. record w { id_unit_map = MapTs.erase w.id_unit_map (x ∷ xs) }

unfoldable pub proceed : ℕ → M (Unit {0})
unfolding create process_call del
proceed a = do
  c ← get_consume a
  proceed_by (record { create = create a; process = process_call a; del = del a }) c.status

unfoldable pub cancel : Broker → ℕ → M (Unit {0})
unfolding del
cancel b a = do
  c ← get_consume a
  give_back b c c.msg_id
  c' ← get_consume a
  put_consume a (record c' { status = finish })
  del a
