-- ===== src/Message.antt =====
-- MsgWorker.h: the messages and the enumerations of the worker.
use rocketmq_proxy.Prelude.{ℕ, Bool, true, false, Bytes, []}

-- What the getters of the client library's `MQMessageExt` return for one message.
pub record MqMessageExt : Type 0 where
  pub msg_id : Bytes
  pub delay_time_level : ℕ
  pub body : Bytes
  pub topic : Bytes

pub data MsgWorkerConsumeStatus : Type 0 where
  proxy_consume_init client_receive consume_ack : MsgWorkerConsumeStatus

pub data ClientMsgConsumeStatus : Type 0 where
  msg_fetch_from_broker msg_consume_ack : ClientMsgConsumeStatus

-- `c == MSG_CONSUME_ACK`
abbrev pub is_ack : ClientMsgConsumeStatus → Bool
is_ack msg_fetch_from_broker = false
is_ack msg_consume_ack = true

-- The client library's enumeration `ConsumeStatus`, as its `int`: an acknowledgement casts any
-- 32-bit number of a request to it.
abbrev pub ConsumeStatus : Type 0
ConsumeStatus = ℕ

abbrev pub consume_success : ConsumeStatus
consume_success = 0

abbrev pub reconsume_later : ConsumeStatus
reconsume_later = 1

pub record MsgUnit : Type 0 where
  pub type : ℕ
  pub msg_id : Bytes
  pub topic : Bytes
  pub group : Bytes
  pub body : Bytes
  pub delay_level : ℕ
  pub status : ℕ
  pub fetch_time : ℕ

-- The constructor, at the time that it reads from the clock.
unfoldable pub new_msg_unit : ℕ → MsgUnit
new_msg_unit now = record {
  type = 0;
  msg_id = [];
  topic = [];
  group = [];
  body = [];
  delay_level = 0;
  status = 0;
  fetch_time = now;
}
