-- ===== src/Wire/Sizes.antt =====
-- The sizes that are computed are those of what is written.
use rocketmq_proxy.Prelude.{ℕ, ◌<◌, [], ◌++◌, Bytes, length, length-append, ◌≡◌, arith}
use rocketmq_proxy.Proto.{
  ProduceRequest, ProduceReply, ConsumeRequest, ConsumeReply, ConsumeAckRequest, ConsumeAckReply,
}
use rocketmq_proxy.Wire.{Wire, IsWire, write_text, write_number, text_size, number_size}
use rocketmq_proxy.Wire.Messages.{
  produce_request_serialize, produce_request_byte_size, consume_request_serialize,
  consume_request_byte_size, consume_ack_request_serialize, consume_ack_request_byte_size,
  produce_reply_serialize, produce_reply_byte_size, consume_reply_serialize,
  consume_reply_byte_size, consume_ack_reply_serialize, consume_ack_reply_byte_size,
}

module _ (wire : Wire) (laws : IsWire wire) where
  text_size_lem : (n : ℕ) (s : Bytes) → n < 16 → length (write_text wire n s) ≡ text_size wire s
  text_size_lem n s small = ground (arith, laws.length_string n s)

  number_size_lem : (n v : ℕ) → n < 16 → length (write_number wire n v) ≡ number_size wire v
  number_size_lem n v small = ground (arith, laws.length_int32 n v)

  -- With a library as documented, for each of the six messages without unknown fields:
  -- `ByteSizeLong` is the number of bytes that are written.
  pub byte_sizes :
      (a : ProduceRequest) (b : ConsumeRequest) (c : ConsumeAckRequest) (d : ProduceReply)
      (e : ConsumeReply) (g : ConsumeAckReply)
      → (produce_request_byte_size wire a [] ≡ length (produce_request_serialize wire a []))
        × (consume_request_byte_size wire b [] ≡ length (consume_request_serialize wire b []))
        × (consume_ack_request_byte_size wire c []
            ≡ length (consume_ack_request_serialize wire c []))
        × (produce_reply_byte_size wire d [] ≡ length (produce_reply_serialize wire d []))
        × (consume_reply_byte_size wire e [] ≡ length (consume_reply_serialize wire e []))
        × (consume_ack_reply_byte_size wire g [] ≡ length (consume_ack_reply_serialize wire g []))
  unfolding produce_request_byte_size produce_request_serialize consume_request_byte_size
      consume_request_serialize consume_ack_request_byte_size consume_ack_request_serialize
      produce_reply_byte_size produce_reply_serialize consume_reply_byte_size
      consume_reply_serialize consume_ack_reply_byte_size consume_ack_reply_serialize
  byte_sizes a b c d e g = (
    omega (
      arith,
      length-append (write_text wire 1 a.topic) (
          write_text wire 2 a.group
          ++ (write_text wire 3 a.tag
              ++ (write_text wire 4 a.body ++ (write_number wire 5 a.delay_level ++ [])))),
      text_size_lem 1 a.topic (omega arith),
      length-append (write_text wire 2 a.group) (
          write_text wire 3 a.tag
          ++ (write_text wire 4 a.body ++ (write_number wire 5 a.delay_level ++ []))),
      text_size_lem 2 a.group (omega arith),
      length-append (write_text wire 3 a.tag)
          (write_text wire 4 a.body ++ (write_number wire 5 a.delay_level ++ [])),
      text_size_lem 3 a.tag (omega arith),
      length-append (write_text wire 4 a.body) (write_number wire 5 a.delay_level ++ []),
      text_size_lem 4 a.body (omega arith),
      length-append (write_number wire 5 a.delay_level) [],
      number_size_lem 5 a.delay_level (omega arith),
    ),
    omega (
      arith,
      length-append (write_text wire 1 b.topic) (write_text wire 2 b.consumer_group ++ []),
      text_size_lem 1 b.topic (omega arith),
      length-append (write_text wire 2 b.consumer_group) [],
      text_size_lem 2 b.consumer_group (omega arith),
    ),
    omega (
      arith,
      length-append (write_text wire 1 c.topic) (
          write_text wire 2 c.msg_id
          ++ (write_text wire 3 c.consumer_group ++ (write_number wire 4 c.status ++ []))),
      text_size_lem 1 c.topic (omega arith),
      length-append (write_text wire 2 c.msg_id)
          (write_text wire 3 c.consumer_group ++ (write_number wire 4 c.status ++ [])),
      text_size_lem 2 c.msg_id (omega arith),
      length-append (write_text wire 3 c.consumer_group) (write_number wire 4 c.status ++ []),
      text_size_lem 3 c.consumer_group (omega arith),
      length-append (write_number wire 4 c.status) [],
      number_size_lem 4 c.status (omega arith),
    ),
    omega (
      arith,
      length-append (write_number wire 1 d.code)
          (write_text wire 2 d.msg_id ++ (write_text wire 3 d.err_msg ++ [])),
      number_size_lem 1 d.code (omega arith),
      length-append (write_text wire 2 d.msg_id) (write_text wire 3 d.err_msg ++ []),
      text_size_lem 2 d.msg_id (omega arith),
      length-append (write_text wire 3 d.err_msg) [],
      text_size_lem 3 d.err_msg (omega arith),
    ),
    omega (
      arith,
      length-append (write_number wire 1 e.code) (
          write_text wire 2 e.msg_id
          ++ (write_text wire 3 e.body ++ (write_text wire 4 e.error_msg ++ []))),
      number_size_lem 1 e.code (omega arith),
      length-append (write_text wire 2 e.msg_id)
          (write_text wire 3 e.body ++ (write_text wire 4 e.error_msg ++ [])),
      text_size_lem 2 e.msg_id (omega arith),
      length-append (write_text wire 3 e.body) (write_text wire 4 e.error_msg ++ []),
      text_size_lem 3 e.body (omega arith),
      length-append (write_text wire 4 e.error_msg) [],
      text_size_lem 4 e.error_msg (omega arith),
    ),
    omega (
      arith,
      length-append (write_number wire 1 g.code)
          (write_text wire 2 g.msg_id ++ (write_text wire 4 g.error_msg ++ [])),
      number_size_lem 1 g.code (omega arith),
      length-append (write_text wire 2 g.msg_id) (write_text wire 4 g.error_msg ++ []),
      text_size_lem 2 g.msg_id (omega arith),
      length-append (write_text wire 4 g.error_msg) [],
      text_size_lem 4 g.error_msg (omega arith),
    ),
  )
