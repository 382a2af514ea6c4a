-- ===== src/Calls/ConsumeAck.antt =====
-- ConsumeAckCallData.h and ConsumeAckCallData.cpp: a client's acknowledgement of a message.
pub mod Branches
use rocketmq_proxy.Prelude.{
  ℕ, Bool, true, false, List, [], ◌∷◌, ◌++◌, Option, none, some, Bytes, bytes, bytes_less, length,
  if◌then◌else◌, get_elem?, set,
}
use rocketmq_proxy.QueueTs
use rocketmq_proxy.MapTs
use rocketmq_proxy.Message.{consume_ack}
use rocketmq_proxy.Consumer.{set_msg_ack}
use rocketmq_proxy.Broker.{Broker}
use rocketmq_proxy.World.{
  World, M, pure, stop, ◌>>=◌, ◌>>◌, read, modify, emit, follow, deref, CallStatus, process, finish,
  ConsumeAckCallData, request_consume_ack, finish_consume_ack, Fault, LogUnit,
}
use rocketmq_proxy.Proto.{ConsumeAckReply, empty_consume_ack_request, empty_consume_ack_reply}
use rocketmq_proxy.Worker.{get_consumer, reset_consumer_active, set_consumer_unit, write_log}
use rocketmq_proxy.Matcher.{get_unit, put_unit}
use rocketmq_proxy.Calls.{
  proceed_by, construct_base, assert_finish, response_success, response_error,
}

abbrev pub new_consume_ack_call : ConsumeAckCallData
new_consume_ack_call = record {
  status = CallStatus.create;
  request = empty_consume_ack_request;
  reply = empty_consume_ack_reply;
  msg_id = [];
  topic = [];
  group = [];
  deleted = false;
}

abbrev pub live : ConsumeAckCallData → M ConsumeAckCallData
live c = if c.deleted then stop Fault.dangling_pointer else pure c

abbrev pub get_call : ℕ → M ConsumeAckCallData
get_call a = do found ← read (λ w. get_elem? w.consume_ack_calls a); c ← follow found; live c

abbrev pub put_call : ℕ → ConsumeAckCallData → M (Unit {0})
put_call a c = modify λ w. record w { consume_ack_calls = set w.consume_ack_calls a c }

unfoldable pub create : ℕ → M (Unit {0})
create a = do
  c ← get_call a
  put_call a (record c { status = process })
  emit (request_consume_ack a)

-- The constructor; see the one of the consume call.
unfoldable pub new : M ℕ
unfolding create
new = do
  a ← read (λ w. length w.consume_ack_calls)
  modify λ w. record w { consume_ack_calls = w.consume_ack_calls ++ new_consume_ack_call ∷ [] }
  construct_base
  create a
  pure a

unfoldable pub del : ℕ → M (Unit {0})
unfolding MapTs.erase
del a = do
  c ← get_call a
  modify λ w. record w { id_unit_map = MapTs.erase w.id_unit_map c.msg_id }
  assert_finish c.status
  put_call a (record c { deleted = true })

-- `if (idUnitMap.try_get(msgId, unit)) unit->status = CONSUME_ACK`
abbrev pub mark_acked : Option ℕ → M (Unit {0})
mark_acked none = pure tt
mark_acked (some u) = do unit ← get_unit u; put_unit u (record unit { status = consume_ack })

-- PROXY_LOGGER_TYPE_CONSUME_ACL
abbrev pub proxy_logger_type_consume_acl : ℕ
proxy_logger_type_consume_acl = 3

-- The branches of `process` on the result of `setMsgAck`.
abbrev pub reply_ack : ℕ → ConsumeAckCallData → Bool → M (Unit {0})
reply_ack a c true = do
  found ← read (λ w. MapTs.try_get w.id_unit_map c.msg_id)
  mark_acked found
  write_log proxy_logger_type_consume_acl c.msg_id c.topic c.group [] 0 c.request.status
  let reply : ConsumeAckReply = c.reply
  let reply' : ConsumeAckReply = record reply {
    code = response_success;
    error_msg = bytes "msg ack succ!";
  }
  put_call a (record c { reply = reply'; status = finish })
  emit (finish_consume_ack a reply')
reply_ack a c false = do
  let reply : ConsumeAckReply = c.reply
  let reply' : ConsumeAckReply = record reply {
    code = response_error;
    error_msg = bytes "msg[" ++ (c.msg_id ++ bytes "] cannot be found!");
  }
  put_call a (record c { reply = reply'; status = finish })
  emit (finish_consume_ack a reply')

unfoldable pub process_call : Broker → ℕ → M (Unit {0})
unfolding new write_log
process_call b a = do
  _ ← new
  old ← get_call a
  put_call a (record old {
    msg_id = old.request.msg_id;
    group = old.request.consumer_group;
    topic = old.request.topic;
  })
  reset_consumer_active old.request.topic old.request.consumer_group
  consumer ← get_consumer b old.request.topic old.request.consumer_group
  p ← deref consumer
  found ← read (λ w. get_elem? w.consumer_units p)
  u ← follow found
  set_consumer_unit p (set_msg_ack old.request.msg_id old.request.status u).1
  c ← get_call a
  reply_ack a c (set_msg_ack old.request.msg_id old.request.status u).0

unfoldable pub proceed : Broker → ℕ → M (Unit {0})
unfolding create process_call del
proceed b a = do
  c ← get_call a
  proceed_by (record { create = create a; process = process_call b a; del = del a }) c.status

unfoldable pub cancel : ℕ → M (Unit {0})
unfolding del
cancel a = do c ← get_call a; put_call a (record c { status = finish }); del a
