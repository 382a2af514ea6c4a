-- ===== src/Wire/Messages.antt =====
-- Proxy.pb.cc: the messages of the service on the wire. For each message: the cases of
-- `MergePartialFromCodedStream`, `SerializeWithCachedSizes` (which
-- `InternalSerializeWithCachedSizesToArray` repeats for an array), `ByteSizeLong` and `MergeFrom`;
-- `u` stands for the unknown fields, which `MergeFrom` leaves to the library to join.
use rocketmq_proxy.Prelude.{ℕ, ◌+◌, List, [], ◌∷◌, ◌++◌, Bytes}
use rocketmq_proxy.Proto.{
  ProduceRequest, ProduceReply, ConsumeRequest, ConsumeReply, ConsumeAckRequest, ConsumeAckReply,
}
use rocketmq_proxy.Wire.{
  Wire, Field, text_field, int32_field, put_text, put_int32, write_text, write_number,
  write_unknown, text_size, number_size, unknown_size,
}

unfoldable pub produce_request_fields : Wire → List (Field ProduceRequest)
produce_request_fields wire =
    text_field wire 1 (λ v r. record r { topic = v })
    ∷ text_field wire 2 (λ v r. record r { group = v })
    ∷ text_field wire 3 (λ v r. record r { tag = v })
    ∷ text_field wire 4 (λ v r. record r { body = v })
    ∷ int32_field wire 5 (λ v r. record r { delay_level = v })
    ∷ []

unfoldable pub produce_request_serialize : Wire → ProduceRequest → Bytes → Bytes
produce_request_serialize wire r u =
    write_text wire 1 r.topic
    ++ (write_text wire 2 r.group
        ++ (write_text wire 3 r.tag
            ++ (write_text wire 4 r.body
                ++ (write_number wire 5 r.delay_level ++ write_unknown wire u))))

unfoldable pub produce_request_byte_size : Wire → ProduceRequest → Bytes → ℕ
produce_request_byte_size wire r u =
    unknown_size wire u
    + text_size wire r.topic
    + text_size wire r.group
    + text_size wire r.tag
    + text_size wire r.body
    + number_size wire r.delay_level

unfoldable pub produce_request_merge_from : ProduceRequest → ProduceRequest → ProduceRequest
produce_request_merge_from from r =
    put_int32 (λ v r. record r { delay_level = v }) from.delay_level
      (put_text (λ v r. record r { body = v }) from.body
        (put_text (λ v r. record r { tag = v }) from.tag
          (put_text (λ v r. record r { group = v }) from.group
            (put_text (λ v r. record r { topic = v }) from.topic r))))

unfoldable pub produce_reply_fields : Wire → List (Field ProduceReply)
produce_reply_fields wire =
    int32_field wire 1 (λ v r. record r { code = v })
    ∷ text_field wire 2 (λ v r. record r { msg_id = v })
    ∷ text_field wire 3 (λ v r. record r { err_msg = v })
    ∷ []

unfoldable pub produce_reply_serialize : Wire → ProduceReply → Bytes → Bytes
produce_reply_serialize wire r u =
    write_number wire 1 r.code
    ++ (write_text wire 2 r.msg_id ++ (write_text wire 3 r.err_msg ++ write_unknown wire u))

unfoldable pub produce_reply_byte_size : Wire → ProduceReply → Bytes → ℕ
produce_reply_byte_size wire r u =
    unknown_size wire u
    + text_size wire r.msg_id
    + text_size wire r.err_msg
    + number_size wire r.code

unfoldable pub produce_reply_merge_from : ProduceReply → ProduceReply → ProduceReply
produce_reply_merge_from from r =
    put_int32 (λ v r. record r { code = v }) from.code
      (put_text (λ v r. record r { err_msg = v }) from.err_msg
        (put_text (λ v r. record r { msg_id = v }) from.msg_id r))

unfoldable pub consume_request_fields : Wire → List (Field ConsumeRequest)
consume_request_fields wire =
    text_field wire 1 (λ v r. record r { topic = v })
    ∷ text_field wire 2 (λ v r. record r { consumer_group = v })
    ∷ []

unfoldable pub consume_request_serialize : Wire → ConsumeRequest → Bytes → Bytes
consume_request_serialize wire r u =
    write_text wire 1 r.topic ++ (write_text wire 2 r.consumer_group ++ write_unknown wire u)

unfoldable pub consume_request_byte_size : Wire → ConsumeRequest → Bytes → ℕ
consume_request_byte_size wire r u =
    unknown_size wire u + text_size wire r.topic + text_size wire r.consumer_group

unfoldable pub consume_request_merge_from : ConsumeRequest → ConsumeRequest → ConsumeRequest
consume_request_merge_from from r =
    put_text (λ v r. record r { consumer_group = v }) from.consumer_group
      (put_text (λ v r. record r { topic = v }) from.topic r)

unfoldable pub consume_reply_fields : Wire → List (Field ConsumeReply)
consume_reply_fields wire =
    int32_field wire 1 (λ v r. record r { code = v })
    ∷ text_field wire 2 (λ v r. record r { msg_id = v })
    ∷ text_field wire 3 (λ v r. record r { body = v })
    ∷ text_field wire 4 (λ v r. record r { error_msg = v })
    ∷ []

unfoldable pub consume_reply_serialize : Wire → ConsumeReply → Bytes → Bytes
consume_reply_serialize wire r u =
    write_number wire 1 r.code
    ++ (write_text wire 2 r.msg_id
        ++ (write_text wire 3 r.body ++ (write_text wire 4 r.error_msg ++ write_unknown wire u)))

unfoldable pub consume_reply_byte_size : Wire → ConsumeReply → Bytes → ℕ
consume_reply_byte_size wire r u =
    unknown_size wire u
    + text_size wire r.msg_id
    + text_size wire r.body
    + text_size wire r.error_msg
    + number_size wire r.code

unfoldable pub consume_reply_merge_from : ConsumeReply → ConsumeReply → ConsumeReply
consume_reply_merge_from from r =
    put_int32 (λ v r. record r { code = v }) from.code
      (put_text (λ v r. record r { error_msg = v }) from.error_msg
        (put_text (λ v r. record r { body = v }) from.body
          (put_text (λ v r. record r { msg_id = v }) from.msg_id r)))

unfoldable pub consume_ack_request_fields : Wire → List (Field ConsumeAckRequest)
consume_ack_request_fields wire =
    text_field wire 1 (λ v r. record r { topic = v })
    ∷ text_field wire 2 (λ v r. record r { msg_id = v })
    ∷ text_field wire 3 (λ v r. record r { consumer_group = v })
    ∷ int32_field wire 4 (λ v r. record r { status = v })
    ∷ []

unfoldable pub consume_ack_request_serialize : Wire → ConsumeAckRequest → Bytes → Bytes
consume_ack_request_serialize wire r u =
    write_text wire 1 r.topic
    ++ (write_text wire 2 r.msg_id
        ++ (write_text wire 3 r.consumer_group
            ++ (write_number wire 4 r.status ++ write_unknown wire u)))

unfoldable pub consume_ack_request_byte_size : Wire → ConsumeAckRequest → Bytes → ℕ
consume_ack_request_byte_size wire r u =
    unknown_size wire u
    + text_size wire r.topic
    + text_size wire r.msg_id
    + text_size wire r.consumer_group
    + number_size wire r.status

unfoldable pub consume_ack_request_merge_from :
    ConsumeAckRequest → ConsumeAckRequest → ConsumeAckRequest
consume_ack_request_merge_from from r =
    put_int32 (λ v r. record r { status = v }) from.status
      (put_text (λ v r. record r { consumer_group = v }) from.consumer_group
        (put_text (λ v r. record r { msg_id = v }) from.msg_id
          (put_text (λ v r. record r { topic = v }) from.topic r)))

unfoldable pub consume_ack_reply_fields : Wire → List (Field ConsumeAckReply)
consume_ack_reply_fields wire =
    int32_field wire 1 (λ v r. record r { code = v })
    ∷ text_field wire 2 (λ v r. record r { msg_id = v })
    ∷ text_field wire 4 (λ v r. record r { error_msg = v })
    ∷ []

unfoldable pub consume_ack_reply_serialize : Wire → ConsumeAckReply → Bytes → Bytes
consume_ack_reply_serialize wire r u =
    write_number wire 1 r.code
    ++ (write_text wire 2 r.msg_id ++ (write_text wire 4 r.error_msg ++ write_unknown wire u))

unfoldable pub consume_ack_reply_byte_size : Wire → ConsumeAckReply → Bytes → ℕ
consume_ack_reply_byte_size wire r u =
    unknown_size wire u
    + text_size wire r.msg_id
    + text_size wire r.error_msg
    + number_size wire r.code

unfoldable pub consume_ack_reply_merge_from : ConsumeAckReply → ConsumeAckReply → ConsumeAckReply
consume_ack_reply_merge_from from r =
    put_int32 (λ v r. record r { code = v }) from.code
      (put_text (λ v r. record r { error_msg = v }) from.error_msg
        (put_text (λ v r. record r { msg_id = v }) from.msg_id r))
