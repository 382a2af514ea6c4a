-- ===== src/Calls.antt =====
-- CallData.h: what the three kinds of call objects share.
pub mod Consume
pub mod ConsumeAck
pub mod Produce
use rocketmq_proxy.Prelude.{
  ℕ, Bool, true, false, List, [], ◌∷◌, ◌++◌, Option, none, some, Bytes, bytes, get_elem?, set,
  length, if◌then◌else◌,
}
use rocketmq_proxy.World.{
  World, M, pure, stop, ◌>>=◌, ◌>>◌, read, modify, follow, emit, CallStatus, finish, Fault, Result,
  ok, fault, ConsumeCallData, ConsumeAckCallData, ProduceCallData, finish_consume,
  finish_consume_ack, finish_produce,
}
use rocketmq_proxy.Proto.{ConsumeReply}
use rocketmq_proxy.Broker.{MqException, what}

-- common.h: `reponseCode`.
abbrev pub response_success : ℕ
response_success = 0

abbrev pub response_error : ℕ
response_error = 1

abbrev pub response_timeout : ℕ
response_timeout = 1000

-- `RequestType`: the type of a call object.
pub data RequestType : Type 0 where
  request_produce request_consume request_consume_ack : RequestType

-- The virtual methods that `Proceed` calls, as a class gives them.
pub record Methods : Type 0 where
  pub create : M (Unit {0})
  pub process : M (Unit {0})
  pub del : M (Unit {0})

-- The methods of `CallDataBase` itself, which do nothing.
abbrev pub base_methods : Methods
base_methods = record { create = pure tt; process = pure tt; del = pure tt }

-- `Proceed`: the method for the status of the call.
abbrev pub proceed_by : Methods → CallStatus → M (Unit {0})
proceed_by methods CallStatus.create = methods.create
proceed_by methods CallStatus.process = methods.process
proceed_by methods CallStatus.finish = methods.del

-- The constructor of `CallDataBase`, for the members that it sets: `Proceed` calls the base's own
-- methods there, since the derived object is not made yet.
abbrev pub construct_base : M (Unit {0})
construct_base = proceed_by base_methods CallStatus.create

-- `GPR_ASSERT(status_ == FINISH)`.
abbrev pub assert_finish : CallStatus → M (Unit {0})
assert_finish CallStatus.finish = pure tt
assert_finish _ = stop Fault.assertion_failed

-- A call object that is not deleted.
abbrev pub live_consume : ConsumeCallData → M ConsumeCallData
live_consume c = if c.deleted then stop Fault.dangling_pointer else pure c

abbrev pub get_consume : ℕ → M ConsumeCallData
get_consume a = do found ← read (λ w. get_elem? w.consume_calls a); c ← follow found; live_consume c

abbrev pub put_consume : ℕ → ConsumeCallData → M (Unit {0})
put_consume a c = modify λ w. record w { consume_calls = set w.consume_calls a c }

-- `responder_.Finish(reply_, Status::OK, this)`.
abbrev pub finish_consume_call : ℕ → ConsumeCallData → M (Unit {0})
finish_consume_call a c = do put_consume a c; emit (finish_consume a c.reply)

-- ConsumeCallData.cpp: `responseMsg`.
unfoldable pub response_msg : ℕ → ℕ → Bytes → Bytes → Bytes → M (Unit {0})
response_msg a code err_msg id body = do
  c ← get_consume a
  finish_consume_call a (record c {
    reply = record { code = code; msg_id = id; body = body; error_msg = err_msg };
    status = finish;
    msg_id = id;
  })

-- ConsumeCallData.h: `responseTimeOut`.
unfoldable pub response_time_out : ℕ → M (Unit {0})
response_time_out a = do
  c ← get_consume a
  let reply : ConsumeReply = c.reply
  finish_consume_call a (record c {
    reply = record reply { code = response_timeout; error_msg = bytes "get msg timeout" };
    status = finish;
  })

-- ProducerCallback.h: the callback that is handed to the client library with a message.
pub record ProducerCallback : Type 0 where
  pub success_func : Bytes → M (Unit {0})
  pub failure_func : Bytes → M (Unit {0})

-- `onSuccess`, for the message id of the library's result, and `onException`, for its exception.
abbrev pub callback_success : ProducerCallback → Bytes → M (Unit {0})
callback_success callback msg_id = callback.success_func msg_id

abbrev pub callback_exception : ProducerCallback → MqException → M (Unit {0})
callback_exception callback e = callback.failure_func (what e)
