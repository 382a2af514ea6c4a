-- ===== src/Proto.antt =====
-- protos/Proxy.proto and the classes that protoc generated from it: the requests and replies of
-- the service, with the defaults of their fields. An `int32` is its 32-bit pattern.
use rocketmq_proxy.Prelude.{ℕ, Bytes, []}

pub record ProduceRequest : Type 0 where
  pub topic : Bytes
  pub group : Bytes
  pub tag : Bytes
  pub body : Bytes
  pub delay_level : ℕ

pub record ProduceReply : Type 0 where
  pub code : ℕ
  pub msg_id : Bytes
  pub err_msg : Bytes

pub record ConsumeRequest : Type 0 where
  pub topic : Bytes
  pub consumer_group : Bytes

pub record ConsumeReply : Type 0 where
  pub code : ℕ
  pub msg_id : Bytes
  pub body : Bytes
  pub error_msg : Bytes

pub record ConsumeAckRequest : Type 0 where
  pub topic : Bytes
  pub msg_id : Bytes
  pub consumer_group : Bytes
  pub status : ℕ

pub record ConsumeAckReply : Type 0 where
  pub code : ℕ
  pub msg_id : Bytes
  pub error_msg : Bytes

abbrev pub empty_produce_request : ProduceRequest
empty_produce_request = record { topic = []; group = []; tag = []; body = []; delay_level = 0 }

abbrev pub empty_produce_reply : ProduceReply
empty_produce_reply = record { code = 0; msg_id = []; err_msg = [] }

abbrev pub empty_consume_request : ConsumeRequest
empty_consume_request = record { topic = []; consumer_group = [] }

abbrev pub empty_consume_reply : ConsumeReply
empty_consume_reply = record { code = 0; msg_id = []; body = []; error_msg = [] }

abbrev pub empty_consume_ack_request : ConsumeAckRequest
empty_consume_ack_request = record { topic = []; msg_id = []; consumer_group = []; status = 0 }

abbrev pub empty_consume_ack_reply : ConsumeAckReply
empty_consume_ack_reply = record { code = 0; msg_id = []; error_msg = [] }
