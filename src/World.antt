-- ===== src/World.antt =====
-- The state that the threads of the server share: the worker's members (MsgWorker.h), the objects
-- behind its pointers, the call objects of the service (CallData.h and its subclasses), and what
-- was handed to the libraries, in order. An address is the place of an object in its list.
use rocketmq_proxy.Prelude.{
  ℕ, ◌-◌, leb, Bool, true, false, ◌&&◌, List, [], ◌∷◌, ◌++◌, Option, none, some, Bytes, bytes_less,
}
use rocketmq_proxy.StdMap.{Map}
use rocketmq_proxy.QueueTs
use rocketmq_proxy.QueueTs.{QueueTs}
use rocketmq_proxy.MapTs
use rocketmq_proxy.MapTs.{MapTs}
use rocketmq_proxy.Message.{MsgUnit, MsgWorkerConsumeStatus, proxy_consume_init, client_receive}
use rocketmq_proxy.Consumer.{ConsumerUnit}
use rocketmq_proxy.Broker.{DefaultMqProducer, MqMessage}
use rocketmq_proxy.Proto.{
  ProduceRequest, ProduceReply, ConsumeRequest, ConsumeReply, ConsumeAckRequest, ConsumeAckReply,
}

pub record LogUnit : Type 0 where
  pub type : ℕ
  pub msg_id : Bytes
  pub topic : Bytes
  pub group : Bytes
  pub body : Bytes
  pub delay_level : ℕ
  pub status : ℕ

-- A consume request that waits for a message, or whose message waits for its acknowledgement.
-- `call_data` is the address of a `ConsumeCallData`.
pub record ConsumeMsgUnit : Type 0 where
  pub call_data : ℕ
  pub topic : Bytes
  pub group : Bytes
  pub msg_id : Bytes
  pub last_active_at : ℕ
  pub status : MsgWorkerConsumeStatus

unfoldable pub new_consume_msg_unit : ℕ → ℕ → Bytes → Bytes → ConsumeMsgUnit
new_consume_msg_unit now call_data topic group = record {
  call_data = call_data;
  topic = topic;
  group = group;
  msg_id = [];
  last_active_at = now;
  status = proxy_consume_init;
}

abbrev pub max_msg_wait_consume_time : ℕ
max_msg_wait_consume_time = 10

abbrev pub max_msg_wait_consume_ack_time : ℕ
max_msg_wait_consume_ack_time = 10

abbrev pub is_init : MsgWorkerConsumeStatus → Bool
is_init proxy_consume_init = true
is_init _ = false

abbrev pub is_receive : MsgWorkerConsumeStatus → Bool
is_receive client_receive = true
is_receive _ = false

-- Times are seconds; a clock that went back counts as no time passed, as `-` on ℕ gives.
unfoldable pub get_is_fetch_msg_timeout : ℕ → ConsumeMsgUnit → Bool
get_is_fetch_msg_timeout now u =
    is_init u.status && leb max_msg_wait_consume_time (now - u.last_active_at)

unfoldable pub get_is_ack_timeout : ℕ → ConsumeMsgUnit → Bool
get_is_ack_timeout now u =
    is_receive u.status && leb max_msg_wait_consume_ack_time (now - u.last_active_at)

pub record ProducerUnit : Type 0 where
  pub producer : DefaultMqProducer
  pub last_active_at : ℕ

pub data CallStatus : Type 0 where
  create process finish : CallStatus

-- The call objects. `deleted` says that `delete this` has run.
pub record ProduceCallData : Type 0 where
  pub status : CallStatus
  pub retry_count : ℕ
  pub request : ProduceRequest
  pub reply : ProduceReply
  pub deleted : Bool

pub record ConsumeCallData : Type 0 where
  pub status : CallStatus
  pub request : ConsumeRequest
  pub reply : ConsumeReply
  pub msg_id : Bytes
  pub topic : Bytes
  pub group : Bytes
  pub deleted : Bool

pub record ConsumeAckCallData : Type 0 where
  pub status : CallStatus
  pub request : ConsumeAckRequest
  pub reply : ConsumeAckReply
  pub msg_id : Bytes
  pub topic : Bytes
  pub group : Bytes
  pub deleted : Bool

-- A call of a library: a request for the next call of a method, `Finish` with a reply, or a message
-- sent with a call object's callback.
pub data Action : Type 0 where
  request_produce request_consume request_consume_ack : ℕ → Action
  finish_produce : ℕ → ProduceReply → Action
  finish_consume : ℕ → ConsumeReply → Action
  finish_consume_ack : ℕ → ConsumeAckReply → Action
  send : ℕ → MqMessage → Action

-- The requests that wait for the matcher, by the addresses of their units.
abbrev pub ConsumeMsgPool : Type 0
ConsumeMsgPool = QueueTs ℕ

-- The unit of a message that was delivered, by the message's id.
abbrev pub IdUnitMap : Type 0
IdUnitMap = MapTs Bytes ℕ

pub record World : Type 0 where
  pub now : ℕ
  pub name_server_host : Bytes
  pub access_key : Bytes
  pub secret_key : Bytes
  pub access_channel : Bytes
  pub producers : Map Bytes ProducerUnit
  pub consumers : MapTs Bytes ℕ
  pub consumer_units : List ConsumerUnit
  pub msg_pool : MapTs Bytes (QueueTs MsgUnit)
  pub consume_msg_pool : ConsumeMsgPool
  pub consume_msg_units : List ConsumeMsgUnit
  pub id_unit_map : IdUnitMap
  pub log_queue : QueueTs LogUnit
  pub produce_calls : List ProduceCallData
  pub consume_calls : List ConsumeCallData
  pub consume_ack_calls : List ConsumeAckCallData
  pub actions : List Action

-- `new MsgWorker`, at a time, before anything else is made.
abbrev pub new_worker : ℕ → World
new_worker now = record {
  now = now;
  name_server_host = [];
  access_key = [];
  secret_key = [];
  access_channel = [];
  producers = [];
  consumers = MapTs.new;
  consumer_units = [];
  msg_pool = MapTs.new;
  consume_msg_pool = QueueTs.new;
  consume_msg_units = [];
  id_unit_map = MapTs.new;
  log_queue = QueueTs.new;
  produce_calls = [];
  consume_calls = [];
  consume_ack_calls = [];
  actions = [];
}

-- What stops the process: a null or dangling pointer that is followed, or a failed `GPR_ASSERT`.
pub data Fault : Type 0 where
  null_pointer dangling_pointer assertion_failed : Fault

pub data Result {ℓ} (A : Type ℓ) : Type ℓ where
  ok : A → Result A
  fault : Fault → Result A

-- A step of a thread: its result and the state that it leaves.
abbrev pub M : Type 0 → Type 0
M A = World → Result (A × World)

abbrev pub pure : {A : Type 0} → A → M A
pure a w = ok (a, w)

abbrev pub stop : {A : Type 0} → Fault → M A
stop f w = fault f

infixl 5 ◌>>=◌ ◌>>◌
abbrev pub ◌>>=◌ : {A B : Type 0} → M A → (A → M B) → M B
◌>>=◌ m f w = elim (m w) [ fault e ↦ fault e | ok (a, w') ↦ f a w' ]

abbrev pub ◌>>◌ : {B : Type 0} → M (Unit {0}) → M B → M B
m >> k = m >>= λ _. k

-- The whole state, a part of it, and a change of it.
abbrev pub read : {A : Type 0} → (World → A) → M A
read f w = ok (f w, w)

abbrev pub modify : (World → World) → M (Unit {0})
modify f w = ok (tt, f w)

-- The object at an address.
abbrev pub follow : {A : Type 0} → Option A → M A
follow none = stop dangling_pointer
follow (some a) = pure a

-- The address that a pointer holds; `none` is `nullptr`.
abbrev pub deref : Option ℕ → M ℕ
deref none = stop null_pointer
deref (some a) = pure a

abbrev pub emit : Action → M (Unit {0})
emit a = modify λ w. record w { actions = w.actions ++ a ∷ [] }
