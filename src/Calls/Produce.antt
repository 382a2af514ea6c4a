-- ===== src/Calls/Produce.antt =====
-- ProduceCallData.h and ProducerCallback.h: a client's request to send a message.
pub mod Branches
pub mod Retry
use rocketmq_proxy.Prelude.{
  ℕ, suc, ◌+◌, ltb, Bool, true, false, ◌||◌, List, [], ◌∷◌, ◌++◌, Option, none, some, Bytes, bytes,
  bytes_less, length, if◌then◌else◌, get_elem?, set,
}
use rocketmq_proxy.QueueTs.{is_empty}
use rocketmq_proxy.Broker.{Broker}
use rocketmq_proxy.World.{
  World, M, pure, stop, ◌>>=◌, ◌>>◌, read, modify, emit, follow, CallStatus, process, finish,
  ProduceCallData, request_produce, finish_produce, Fault, LogUnit,
}
use rocketmq_proxy.Proto.{ProduceRequest, ProduceReply, empty_produce_request, empty_produce_reply}
use rocketmq_proxy.Worker.{produce, write_log}
use rocketmq_proxy.Calls.{
  ProducerCallback, proceed_by, construct_base, assert_finish, response_success, response_error,
}

abbrev pub rocketmq_proxy_produce_max_retry_count : ℕ
rocketmq_proxy_produce_max_retry_count = 5

abbrev pub new_produce_call : ProduceCallData
new_produce_call = record {
  status = CallStatus.create;
  retry_count = 0;
  request = empty_produce_request;
  reply = empty_produce_reply;
  deleted = false;
}

abbrev pub live : ProduceCallData → M ProduceCallData
live c = if c.deleted then stop Fault.dangling_pointer else pure c

abbrev pub get_call : ℕ → M ProduceCallData
get_call a = do found ← read (λ w. get_elem? w.produce_calls a); c ← follow found; live c

abbrev pub put_call : ℕ → ProduceCallData → M (Unit {0})
put_call a c = modify λ w. record w { produce_calls = set w.produce_calls a c }

unfoldable pub create : ℕ → M (Unit {0})
create a = do c ← get_call a; put_call a (record c { status = process }); emit (request_produce a)

-- The constructor; see the one of the consume call.
unfoldable pub new : M ℕ
unfolding create
new = do
  a ← read (λ w. length w.produce_calls)
  modify λ w. record w { produce_calls = w.produce_calls ++ new_produce_call ∷ [] }
  construct_base
  create a
  pure a

unfoldable pub del : ℕ → M (Unit {0})
del a = do c ← get_call a; assert_finish c.status; put_call a (record c { deleted = true })

-- The reply `RESPONSE_ERROR` with a text, and `Finish`.
unfoldable pub fail_with : ℕ → Bytes → M (Unit {0})
fail_with a text = do
  c ← get_call a
  let old : ProduceReply = c.reply
  let reply : ProduceReply = record old { code = response_error; err_msg = text }
  put_call a (record c { reply = reply; status = finish })
  emit (finish_produce a reply)

abbrev pub lacks_param : ProduceRequest → Bool
lacks_param r = is_empty r.topic || (is_empty r.group || (is_empty r.tag || is_empty r.body))

-- The `catch` of `process`.
abbrev pub catch_send : ℕ → Option Bytes → M (Unit {0})
catch_send a none = pure tt
catch_send a (some what) = fail_with a what

-- `process`. The call of `produce` passes no delay level, so the default 0 stands.
unfoldable pub process_call : Broker → ℕ → M (Unit {0})
unfolding new fail_with produce
process_call b a = do
  _ ← new
  c ← get_call a
  if lacks_param c.request then fail_with a (bytes "params error!") else (do
    what ← produce b a c.request.topic c.request.group c.request.tag c.request.body 0
    catch_send a what)

-- PROXY_LOGGER_TYPE_PRODUCE
abbrev pub proxy_logger_type_produce : ℕ
proxy_logger_type_produce = 1

-- `successFunc` of the callback.
unfoldable pub on_success : ℕ → Bytes → M (Unit {0})
unfolding write_log
on_success a msg_id = do
  c ← get_call a
  let old : ProduceReply = c.reply
  let reply : ProduceReply = record old { code = response_success; msg_id = msg_id }
  put_call a (record c { reply = reply; status = finish })
  write_log proxy_logger_type_produce msg_id c.request.topic c.request.group c.request.body
      c.request.delay_level 0
  emit (finish_produce a reply)

-- `failureFunc` of the callback.
unfoldable pub on_failure : Broker → ℕ → Bytes → M (Unit {0})
unfolding process_call fail_with
on_failure b a text = do
  c ← get_call a
  put_call a (record c { retry_count = c.retry_count + 1 })
  if ltb rocketmq_proxy_produce_max_retry_count (c.retry_count + 1)
      then fail_with a text
      else process_call b a

-- The callback that `process` makes.
abbrev pub make_callback : Broker → ℕ → ProducerCallback
make_callback b a = record { success_func = on_success a; failure_func = on_failure b a }

unfoldable pub proceed : Broker → ℕ → M (Unit {0})
unfolding create process_call del
proceed b a = do
  c ← get_call a
  proceed_by (record { create = create a; process = process_call b a; del = del a }) c.status

unfoldable pub cancel : ℕ → M (Unit {0})
unfolding del
cancel a = do c ← get_call a; put_call a (record c { status = finish }); del a
