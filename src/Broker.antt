-- ===== src/Broker.antt =====
-- The client library of the broker, which the program only calls: what the program sets on the
-- library's objects, and the outcomes of its calls as a parameter of the model.
use rocketmq_proxy.Prelude.{ℕ, zero, suc, signed_decimal, Bool, [], ◌∷◌, ◌++◌, Option, Bytes, bytes}

pub record SessionCredentials : Type 0 where
  pub access_key : Bytes
  pub secret_key : Bytes
  pub channel : Bytes

pub data ConsumeFromWhere : Type 0 where
  consume_from_last_offset : ConsumeFromWhere
  consume_from_last_offset_and_from_min_when_boot_first : ConsumeFromWhere
  consume_from_min_offset consume_from_max_offset : ConsumeFromWhere
  consume_from_first_offset consume_from_timestamp : ConsumeFromWhere

-- A `DefaultMQPushConsumer`, by its name and what its setters were given.
pub record DefaultMqPushConsumer : Type 0 where
  pub group_name : Bytes
  pub namesrv_addr : Bytes
  pub consume_from_where : ConsumeFromWhere
  pub instance_name : Bytes
  pub subscribed_topic : Bytes
  pub sub_expression : Bytes
  pub consume_thread_count : ℕ
  pub tcp_transport_pull_thread_num : ℕ
  pub pull_msg_thread_pool_count : ℕ
  pub max_cache_msg_size_per_queue : ℕ
  pub tcp_transport_try_lock_timeout : ℕ
  pub tcp_transport_connect_timeout : ℕ
  pub session_credentials : SessionCredentials

-- A `DefaultMQProducer`, by its name and what its setters were given.
pub record DefaultMqProducer : Type 0 where
  pub name : Bytes
  pub namesrv_addr : Bytes
  pub group_name : Bytes
  pub instance_name : Bytes
  pub tcp_transport_pull_thread_num : ℕ
  pub send_msg_timeout : ℕ
  pub tcp_transport_try_lock_timeout : ℕ
  pub tcp_transport_connect_timeout : ℕ
  pub session_credentials : SessionCredentials

-- An `MQMessage` as its constructor and `setDelayTimeLevel` fill it.
pub record MqMessage : Type 0 where
  pub topic : Bytes
  pub tags : Bytes
  pub body : Bytes
  pub delay_time_level : ℕ

-- The outcomes of the library's calls at a time: whether `start` returns or throws, and the text
-- of the exception if `send` throws one. Nothing is assumed of them.
pub record Broker : Type 0 where
  pub consumer_start : DefaultMqPushConsumer → ℕ → Bool
  pub producer_start : DefaultMqProducer → ℕ → Bool
  pub send : MqMessage → ℕ → Option Bytes

-- The library's exceptions (MQClientException.h). The two numbers are 32-bit patterns.
pub record MqException : Type 0 where
  pub m_error : ℕ
  pub m_line : ℕ
  pub m_msg : Bytes
  pub m_file : Bytes
  pub m_type : Bytes

abbrev exception_text : Bytes → ℕ → Bytes → ℕ → Bytes
exception_text msg error file line =
    bytes "msg: "
    ++ (msg
        ++ (bytes ",error:"
            ++ (signed_decimal error
                ++ (bytes ",in file <" ++ (file ++ (bytes "> line:" ++ signed_decimal line))))))

-- The two constructors.
abbrev pub new_exception : Bytes → ℕ → Bytes → ℕ → MqException
new_exception msg error file line = record {
  m_error = error;
  m_line = line;
  m_msg = exception_text msg error file line;
  m_file = file;
  m_type = [];
}

abbrev pub new_typed_exception : Bytes → ℕ → Bytes → Bytes → ℕ → MqException
new_typed_exception msg error file type line = record {
  m_error = error;
  m_line = line;
  m_msg = exception_text msg error file line;
  m_file = file;
  m_type = type;
}

-- The bytes of a text before its first 0.
unfoldable pub until_zero : Bytes → Bytes
until_zero [] = []
until_zero (zero ∷ s) = []
until_zero (suc c ∷ s) = suc c ∷ until_zero s

-- `what`, as a caller reads it, who makes a `string` of it.
abbrev pub what : MqException → Bytes
what e = until_zero e.m_msg
