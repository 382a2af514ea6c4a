-- ===== src/Examples/Wires.antt =====
-- A small format with the documented behaviour of the library, and instances of the theorems on the
-- messages. A tag, a length and a number take one place each.
use rocketmq_proxy.Prelude.{
  ℕ, zero, suc, ◌+◌, ◌*◌, ◌^◌, ◌<◌, true, [], ◌∷◌, ◌++◌, Option, none, some, Bytes, bytes, length,
  ◌≡◌, refl, arith, ap,
}
use rocketmq_proxy.Proto.{
  ProduceRequest, ProduceReply, ConsumeRequest, ConsumeReply, ConsumeAckRequest, ConsumeAckReply,
  empty_produce_request, empty_produce_reply, empty_consume_request, empty_consume_reply,
  empty_consume_ack_request, empty_consume_ack_reply,
}
use rocketmq_proxy.Wire.{Wire, IsWire, IsText, merge_partial}
use rocketmq_proxy.Wire.Messages.{
  produce_request_fields, produce_request_serialize, produce_request_byte_size,
  consume_request_fields, consume_request_serialize, consume_request_byte_size,
  consume_ack_request_fields, consume_ack_request_serialize, consume_ack_request_byte_size,
  produce_reply_fields, produce_reply_serialize, produce_reply_byte_size, consume_reply_fields,
  consume_reply_serialize, consume_reply_byte_size, consume_ack_reply_fields,
  consume_ack_reply_serialize, consume_ack_reply_byte_size,
}
use rocketmq_proxy.Wire.Requests.{requests_read_back}
use rocketmq_proxy.Wire.Replies.{replies_read_back}
use rocketmq_proxy.Wire.Sizes.{byte_sizes}

abbrev split : ℕ → Bytes → Bytes × Bytes
split zero s = ([], s)
split (suc n) [] = ([], [])
split (suc n) (x ∷ s) = let (a, b) = split n s in (x ∷ a, b)

split-length : (s rest : Bytes) → split (length s) (s ++ rest) ≡ (s, rest)
split-length [] rest = refl
split-length (x ∷ s) rest = ap (λ p. (x ∷ p.0, p.1)) (split-length s rest)

abbrev first_of : Bytes → ℕ × Bytes
first_of [] = (0, [])
first_of (x ∷ s) = (x, s)

abbrev text_of : Bytes → Option (Bytes × Bytes)
text_of [] = none
text_of (k ∷ s) = some (split k s)

abbrev number_of : Bytes → Option (ℕ × Bytes)
number_of [] = none
number_of (v ∷ s) = some (v, s)

abbrev small_wire : Wire
small_wire = record {
  read_tag = first_of;
  read_string = text_of;
  read_int32 = number_of;
  verify_utf8_string = λ s. true;
  skip_field = λ tag u input. none;
  write_string = λ n s. (n * 8 + 2) ∷ length s ∷ s;
  write_int32 = λ n v. (n * 8) ∷ v ∷ [];
  serialize_unknown_fields = λ u. u;
  string_size = λ s. 1 + length s;
  int32_size = λ v. 1;
  compute_unknown_fields_size = length;
}

abbrev small_laws : IsWire small_wire
small_laws = record {
  read_end = refl;
  read_written_string =
      λ n s rest positive few short. (length s ∷ (s ++ rest), refl, ap some (split-length s rest));
  read_written_int32 = λ n v rest positive few fits. (v ∷ rest, refl, refl);
  length_string = λ n s few. omega arith;
  length_int32 = λ n v few. omega arith;
}

abbrev request : ProduceRequest
request = record {
  topic = bytes "t";
  group = bytes "g";
  tag = [];
  body = bytes "hello";
  delay_level = 3;
}

abbrev fetch_request : ConsumeRequest
fetch_request = record { topic = bytes "t"; consumer_group = bytes "g" }

abbrev ack_request : ConsumeAckRequest
ack_request = record {
  topic = bytes "t";
  msg_id = bytes "m1";
  consumer_group = bytes "g";
  status = 1;
}

abbrev reply : ProduceReply
reply = record { code = 0; msg_id = bytes "m1"; err_msg = [] }

abbrev fetch_reply : ConsumeReply
fetch_reply = record { code = 1000; msg_id = []; body = []; error_msg = bytes "get msg timeout" }

abbrev ack_reply : ConsumeAckReply
ack_reply = record { code = 0; msg_id = []; error_msg = bytes "msg ack succ!" }

abbrev text : (s : Bytes) → length s < 2 ^ 31 → IsText small_wire s
text s short = record { utf8 = refl; short = short }

requests_read_back_example :
    (merge_partial small_wire
        (produce_request_fields small_wire)
        7
        empty_produce_request
        []
        (produce_request_serialize small_wire request [])
      ≡ some (request, []))
    × (merge_partial small_wire
          (consume_request_fields small_wire)
          7
          empty_consume_request
          []
          (consume_request_serialize small_wire fetch_request [])
        ≡ some (fetch_request, []))
    × (merge_partial small_wire
          (consume_ack_request_fields small_wire)
          7
          empty_consume_ack_request
          []
          (consume_ack_request_serialize small_wire ack_request [])
        ≡ some (ack_request, []))
requests_read_back_example =
    requests_read_back small_wire small_laws request fetch_request ack_request 1
      (
        text _ (omega arith),
        text _ (omega arith),
        text _ (omega arith),
        text _ (omega arith),
        omega arith,
      )
      (text _ (omega arith), text _ (omega arith))
      (text _ (omega arith), text _ (omega arith), text _ (omega arith), omega arith)

replies_read_back_example :
    (merge_partial small_wire
        (produce_reply_fields small_wire)
        7
        empty_produce_reply
        []
        (produce_reply_serialize small_wire reply [])
      ≡ some (reply, []))
    × (merge_partial small_wire
          (consume_reply_fields small_wire)
          7
          empty_consume_reply
          []
          (consume_reply_serialize small_wire fetch_reply [])
        ≡ some (fetch_reply, []))
    × (merge_partial small_wire
          (consume_ack_reply_fields small_wire)
          7
          empty_consume_ack_reply
          []
          (consume_ack_reply_serialize small_wire ack_reply [])
        ≡ some (ack_reply, []))
replies_read_back_example =
    replies_read_back small_wire small_laws reply fetch_reply ack_reply 1
      (omega arith, text _ (omega arith), text _ (omega arith))
      (omega arith, text _ (omega arith), text _ (omega arith), text _ (omega arith))
      (omega arith, text _ (omega arith), text _ (omega arith))

byte_sizes_example :
    (produce_request_byte_size small_wire request []
      ≡ length (produce_request_serialize small_wire request []))
    × (consume_request_byte_size small_wire fetch_request []
        ≡ length (consume_request_serialize small_wire fetch_request []))
    × (consume_ack_request_byte_size small_wire ack_request []
        ≡ length (consume_ack_request_serialize small_wire ack_request []))
    × (produce_reply_byte_size small_wire reply []
        ≡ length (produce_reply_serialize small_wire reply []))
    × (consume_reply_byte_size small_wire fetch_reply []
        ≡ length (consume_reply_serialize small_wire fetch_reply []))
    × (consume_ack_reply_byte_size small_wire ack_reply []
        ≡ length (consume_ack_reply_serialize small_wire ack_reply []))
byte_sizes_example =
    byte_sizes small_wire small_laws request fetch_request ack_request reply fetch_reply ack_reply
