-- ===== src/Wire/Replies.antt =====
-- What is written of a reply is read back.
use rocketmq_proxy.Prelude.{
  ℕ, suc, ◌^◌, ◌<◌, List, [], ◌∷◌, Option, some, Bytes, ◌≡◌, refl, arith, ◌∙◌, All,
}
use rocketmq_proxy.Proto.{
  ProduceReply, ConsumeReply, ConsumeAckReply, empty_produce_reply, empty_consume_reply,
  empty_consume_ack_reply,
}
use rocketmq_proxy.Wire.{Wire, IsWire, IsText, merge_partial}
use rocketmq_proxy.Wire.Messages.{
  produce_reply_fields, produce_reply_serialize, produce_reply_merge_from, consume_reply_fields,
  consume_reply_serialize, consume_reply_merge_from, consume_ack_reply_fields,
  consume_ack_reply_serialize, consume_ack_reply_merge_from,
}
use rocketmq_proxy.Wire.Fields.{Part, text_part, number_part, Has, merge-write_parts}

-- Messages whose texts the library takes, with 32-bit numbers.
abbrev pub IsProduceReply : Wire → ProduceReply → Type 0
IsProduceReply wire r = (r.code < 2 ^ 32) × IsText wire r.msg_id × IsText wire r.err_msg

abbrev pub IsConsumeReply : Wire → ConsumeReply → Type 0
IsConsumeReply wire r =
    (r.code < 2 ^ 32) × IsText wire r.msg_id × IsText wire r.body × IsText wire r.error_msg

abbrev pub IsConsumeAckReply : Wire → ConsumeAckReply → Type 0
IsConsumeAckReply wire r = (r.code < 2 ^ 32) × IsText wire r.msg_id × IsText wire r.error_msg

as_read :
    {R : Type 0} (x : Option (R × Bytes)) (a b : R) → x ≡ some (a, []) → a ≡ b → x ≡ some (b, [])
as_read x a b h e = rw e at h

module _ (wire : Wire) (laws : IsWire wire) where
  -- What is read is merged into the message that is there.
  merge-produce_reply :
      (from r : ProduceReply) (u : Bytes) (f : ℕ)
      → IsProduceReply wire from
      → merge_partial wire
          (produce_reply_fields wire)
          (suc (suc (suc (suc f))))
          r
          u
          (produce_reply_serialize wire from [])
        ≡ some (produce_reply_merge_from from r, u)
  unfolding produce_reply_fields produce_reply_serialize produce_reply_merge_from
  merge-produce_reply from r u f valid =
      merge-write_parts wire laws (produce_reply_fields wire) u parts r f refl has ∙ ground arith
    where
      parts : List (Part ProduceReply)
      parts =
          number_part 1 (λ v s. record s { code = v }) from.code
          ∷ text_part 2 (λ v s. record s { msg_id = v }) from.msg_id
          ∷ text_part 3 (λ v s. record s { err_msg = v }) from.err_msg
          ∷ []

      has : All (Has wire (produce_reply_fields wire)) parts
      has = (
        (omega arith, omega arith, refl, valid.0),
        (
          (omega arith, omega arith, refl, valid.1),
          ((omega arith, omega arith, refl, valid.2), tt),
        ),
      )

  -- What is read is merged into the message that is there.
  merge-consume_reply :
      (from r : ConsumeReply) (u : Bytes) (f : ℕ)
      → IsConsumeReply wire from
      → merge_partial wire
          (consume_reply_fields wire)
          (suc (suc (suc (suc (suc f)))))
          r
          u
          (consume_reply_serialize wire from [])
        ≡ some (consume_reply_merge_from from r, u)
  unfolding consume_reply_fields consume_reply_serialize consume_reply_merge_from
  merge-consume_reply from r u f valid =
      merge-write_parts wire laws (consume_reply_fields wire) u parts r f refl has ∙ ground arith
    where
      parts : List (Part ConsumeReply)
      parts =
          number_part 1 (λ v s. record s { code = v }) from.code
          ∷ text_part 2 (λ v s. record s { msg_id = v }) from.msg_id
          ∷ text_part 3 (λ v s. record s { body = v }) from.body
          ∷ text_part 4 (λ v s. record s { error_msg = v }) from.error_msg
          ∷ []

      has : All (Has wire (consume_reply_fields wire)) parts
      has = (
        (omega arith, omega arith, refl, valid.0),
        (
          (omega arith, omega arith, refl, valid.1),
          (
            (omega arith, omega arith, refl, valid.2),
            ((omega arith, omega arith, refl, valid.3), tt),
          ),
        ),
      )

  -- What is read is merged into the message that is there.
  merge-consume_ack_reply :
      (from r : ConsumeAckReply) (u : Bytes) (f : ℕ)
      → IsConsumeAckReply wire from
      → merge_partial wire
          (consume_ack_reply_fields wire)
          (suc (suc (suc (suc f))))
          r
          u
          (consume_ack_reply_serialize wire from [])
        ≡ some (consume_ack_reply_merge_from from r, u)
  unfolding consume_ack_reply_fields consume_ack_reply_serialize consume_ack_reply_merge_from
  merge-consume_ack_reply from r u f valid =
      merge-write_parts wire laws (consume_ack_reply_fields wire) u parts r f refl has
      ∙ ground arith
    where
      parts : List (Part ConsumeAckReply)
      parts =
          number_part 1 (λ v s. record s { code = v }) from.code
          ∷ text_part 2 (λ v s. record s { msg_id = v }) from.msg_id
          ∷ text_part 4 (λ v s. record s { error_msg = v }) from.error_msg
          ∷ []

      has : All (Has wire (consume_ack_reply_fields wire)) parts
      has = (
        (omega arith, omega arith, refl, valid.0),
        (
          (omega arith, omega arith, refl, valid.1),
          ((omega arith, omega arith, refl, valid.2), tt),
        ),
      )

  -- With a library as documented, and fuel for six rounds of the loop or more: each of the three
  -- replies, with texts that the library takes, 32-bit numbers and no unknown fields, is read back from
  -- what was written of it, as it was.
  pub replies_read_back :
      (r : ProduceReply) (s : ConsumeReply) (t : ConsumeAckReply) (f : ℕ)
      → IsProduceReply wire r
      → IsConsumeReply wire s
      → IsConsumeAckReply wire t
      → (merge_partial wire
            (produce_reply_fields wire)
            (suc (suc (suc (suc (suc (suc f))))))
            empty_produce_reply
            []
            (produce_reply_serialize wire r [])
          ≡ some (r, []))
        × (merge_partial wire
              (consume_reply_fields wire)
              (suc (suc (suc (suc (suc (suc f))))))
              empty_consume_reply
              []
              (consume_reply_serialize wire s [])
            ≡ some (s, []))
        × (merge_partial wire
              (consume_ack_reply_fields wire)
              (suc (suc (suc (suc (suc (suc f))))))
              empty_consume_ack_reply
              []
              (consume_ack_reply_serialize wire t [])
            ≡ some (t, []))
  unfolding produce_reply_merge_from consume_reply_merge_from consume_ack_reply_merge_from
  replies_read_back r s t f h0 h1 h2 = (
    as_read _ _ _ (merge-produce_reply r empty_produce_reply [] (suc (suc f)) h0)
        (default_produce_reply r),
    as_read _ _ _ (merge-consume_reply s empty_consume_reply [] (suc f) h1)
        (default_consume_reply s),
    as_read _ _ _ (merge-consume_ack_reply t empty_consume_ack_reply [] (suc (suc f)) h2)
        (default_consume_ack_reply t),
  )
    where
      default_produce_reply :
          (a : ProduceReply) → produce_reply_merge_from a empty_produce_reply ≡ a
      default_produce_reply a = ground arith

      default_consume_reply :
          (a : ConsumeReply) → consume_reply_merge_from a empty_consume_reply ≡ a
      default_consume_reply a = ground arith

      default_consume_ack_reply :
          (a : ConsumeAckReply) → consume_ack_reply_merge_from a empty_consume_ack_reply ≡ a
      default_consume_ack_reply a = ground arith
