-- ===== src/System/Sends.antt =====
-- The handlers of the calls that send a message, and the callbacks of a send, by the rules of
-- System/Keeps.
use rocketmq_proxy.QueueTs.{is_empty}
use rocketmq_proxy.System.Lasting.{is_complete, Lasting}
use rocketmq_proxy.Prelude.{
  Bool, true, false, not, ◌||◌, ◌≡◌, ap, bytes, if◌then◌else◌, ℕ, Option, none, some, Bytes, arith,
}
use rocketmq_proxy.World.{◌>>=◌, CallStatus, ProduceCallData, ProducerUnit, create, process, finish}
use rocketmq_proxy.Broker.{Broker, MqMessage}
use rocketmq_proxy.Worker.{get_producer, send_by, record_send, write_log, produce}
use rocketmq_proxy.Calls.{proceed_by, Methods, assert_finish}
use rocketmq_proxy.Calls.Produce
use rocketmq_proxy.Proto.{ProduceRequest}
use rocketmq_proxy.System.{receive_produce}
use rocketmq_proxy.System.Keeps.{Keeps, keeps}

pub write_log-Keeps :
    {L : Lasting}
    → (type : ℕ) (id topic group body : Bytes) (level status : ℕ)
    → Keeps L (write_log type id topic group body level status)
unfolding write_log
write_log-Keeps type id topic group body level status = search keeps

pub assert_finish-Keeps : {L : Lasting} → (s : CallStatus) → Keeps L (assert_finish s)
assert_finish-Keeps create = search keeps
assert_finish-Keeps process = search keeps
assert_finish-Keeps finish = search keeps

pub proceed_by-Keeps :
    {L : Lasting}
    → (m : Methods) (s : CallStatus) → Keeps L m.create
    → Keeps L m.process
    → Keeps L m.del
    → Keeps L (proceed_by m s)
proceed_by-Keeps m create h i j = h
proceed_by-Keeps m process h i j = i
proceed_by-Keeps m finish h i j = j

get_call-Keeps : {L : Lasting} → (a : ℕ) → Keeps L (Produce.get_call a)
get_call-Keeps a = search keeps

put_call-Keeps : {L : Lasting} → (a : ℕ) (c : ProduceCallData) → Keeps L (Produce.put_call a c)
put_call-Keeps a c = search keeps

ruleset produce_keeps =
    (keeps, get_call-Keeps, put_call-Keeps, write_log-Keeps, assert_finish-Keeps)

create-Keeps : {L : Lasting} → (a : ℕ) → Keeps L (Produce.create a)
unfolding Produce.create
create-Keeps a = search produce_keeps

pub new-Keeps : {L : Lasting} → Keeps L Produce.new
unfolding Produce.new
new-Keeps = search (produce_keeps, create-Keeps)

del-Keeps : {L : Lasting} → (a : ℕ) → Keeps L (Produce.del a)
unfolding Produce.del
del-Keeps a = search produce_keeps

fail_with-Keeps : {L : Lasting} → (a : ℕ) (text : Bytes) → Keeps L (Produce.fail_with a text)
unfolding Produce.fail_with
fail_with-Keeps a text = search produce_keeps

catch_send-Keeps :
    {L : Lasting} → (a : ℕ) (what : Option Bytes) → Keeps L (Produce.catch_send a what)
catch_send-Keeps a none = search keeps
catch_send-Keeps a (some what) = fail_with-Keeps a what

get_producer-Keeps :
    {L : Lasting} → (b : Broker) (topic group : Bytes) → Keeps L (get_producer b topic group)
unfolding get_producer
get_producer-Keeps b topic group = record { after = λ w v. ground arith }

record_send-Keeps :
    {L : Lasting}
    → (a : ℕ) (msg : MqMessage) (what : Option Bytes) → is_complete msg ≡ true
    → Keeps L (record_send a msg what)
record_send-Keeps a msg none complete = search keeps
record_send-Keeps a msg (some what) complete = search keeps

send_by-Keeps :
    {L : Lasting}
    → (b : Broker) (a : ℕ) (msg : MqMessage) (u : Option ProducerUnit) → is_complete msg ≡ true
    → Keeps L (send_by b a msg u)
unfolding send_by
send_by-Keeps b a msg none complete = search keeps
send_by-Keeps b a msg (some u) complete = search (keeps, record_send-Keeps)

produce-Keeps :
    {L : Lasting}
    → (b : Broker) (a : ℕ) (topic group tag body : Bytes) (level : ℕ)
    → not (is_empty topic || (is_empty tag || is_empty body)) ≡ true
    → Keeps L (produce b a topic group tag body level)
unfolding produce
produce-Keeps b a topic group tag body level complete =
    search (keeps, get_producer-Keeps, send_by-Keeps)

nothing_lacks :
    (topic group tag body : Bool)
    → (topic || (group || (tag || body))) ≡ false
    → not (topic || (tag || body)) ≡ true
nothing_lacks true group tag body e = cc
nothing_lacks false true tag body e = cc
nothing_lacks false false tag body e = ap not e

-- What is sent is a request that lacks no parameter.
checked-Keeps :
    {L : Lasting}
    → (b : Broker) (a : ℕ) (r : ProduceRequest) (lacks : Bool) → Produce.lacks_param r ≡ lacks
    → Keeps L (
        if lacks
        then Produce.fail_with a (bytes "params error!")
        else (do what ← produce b a r.topic r.group r.tag r.body 0; Produce.catch_send a what))
checked-Keeps b a r true e = fail_with-Keeps a (bytes "params error!")
checked-Keeps b a r false e =
    let complete =
      nothing_lacks (is_empty r.topic) (is_empty r.group) (is_empty r.tag) (is_empty r.body) e in
    search (keeps, produce-Keeps, complete, catch_send-Keeps)

process_call-Keeps : {L : Lasting} → (b : Broker) (a : ℕ) → Keeps L (Produce.process_call b a)
unfolding Produce.process_call
process_call-Keeps b a = search (produce_keeps, new-Keeps, checked-Keeps)

pub on_success-Keeps : {L : Lasting} → (a : ℕ) (id : Bytes) → Keeps L (Produce.on_success a id)
unfolding Produce.on_success
on_success-Keeps a id = search produce_keeps

pub on_failure-Keeps :
    {L : Lasting} → (b : Broker) (a : ℕ) (text : Bytes) → Keeps L (Produce.on_failure b a text)
unfolding Produce.on_failure
on_failure-Keeps b a text = search (produce_keeps, fail_with-Keeps, process_call-Keeps)

pub produce-proceed-Keeps : {L : Lasting} → (b : Broker) (a : ℕ) → Keeps L (Produce.proceed b a)
unfolding Produce.proceed
produce-proceed-Keeps b a =
    search (produce_keeps, proceed_by-Keeps, create-Keeps, process_call-Keeps, del-Keeps)

pub produce-cancel-Keeps : {L : Lasting} → (a : ℕ) → Keeps L (Produce.cancel a)
unfolding Produce.cancel
produce-cancel-Keeps a = search (produce_keeps, del-Keeps)

pub receive_produce-Keeps :
    {L : Lasting} → (a : ℕ) (r : ProduceRequest) → Keeps L (receive_produce a r)
unfolding receive_produce
receive_produce-Keeps a r = search produce_keeps
