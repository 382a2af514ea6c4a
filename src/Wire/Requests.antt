-- ===== src/Wire/Requests.antt =====
-- What is written of a request is read back.
use rocketmq_proxy.Prelude.{
  ℕ, suc, ◌^◌, ◌<◌, List, [], ◌∷◌, Option, some, Bytes, ◌≡◌, refl, arith, All,
}
use rocketmq_proxy.Proto.{
  ProduceRequest, ConsumeRequest, ConsumeAckRequest, empty_produce_request, empty_consume_request,
  empty_consume_ack_request,
}
use rocketmq_proxy.Wire.{Wire, IsWire, IsText, merge_partial}
use rocketmq_proxy.Wire.Messages.{
  produce_request_fields, produce_request_serialize, produce_request_merge_from,
  consume_request_fields, consume_request_serialize, consume_request_merge_from,
  consume_ack_request_fields, consume_ack_request_serialize, consume_ack_request_merge_from,
}
use rocketmq_proxy.Wire.Fields.{Part, text_part, number_part, Has, merge-write_parts}

-- Messages whose texts the library takes, with 32-bit numbers.
abbrev pub IsProduceRequest : Wire → ProduceRequest → Type 0
IsProduceRequest wire r =
    IsText wire r.topic
    × IsText wire r.group
    × IsText wire r.tag
    × IsText wire r.body
    × (r.delay_level < 2 ^ 32)

abbrev pub IsConsumeRequest : Wire → ConsumeRequest → Type 0
IsConsumeRequest wire r = IsText wire r.topic × IsText wire r.consumer_group

abbrev pub IsConsumeAckRequest : Wire → ConsumeAckRequest → Type 0
IsConsumeAckRequest wire r =
    IsText wire r.topic × IsText wire r.msg_id × IsText wire r.consumer_group × (r.status < 2 ^ 32)

as_read :
    {R : Type 0} (x : Option (R × Bytes)) (a b : R) → x ≡ some (a, []) → a ≡ b → x ≡ some (b, [])
as_read x a b h e = rw e at h

module _ (wire : Wire) (laws : IsWire wire) where
  -- What is read is merged into the message that is there.
  merge-produce_request :
      (from r : ProduceRequest) (u : Bytes) (f : ℕ)
      → IsProduceRequest wire from
      → merge_partial wire
          (produce_request_fields wire)
          (suc (suc (suc (suc (suc (suc f))))))
          r
          u
          (produce_request_serialize wire from [])
        ≡ some (produce_request_merge_from from r, u)
  unfolding produce_request_fields produce_request_serialize produce_request_merge_from
  merge-produce_request from r u f valid =
      merge-write_parts wire laws (produce_request_fields wire) u parts r f refl has
    where
      parts : List (Part ProduceRequest)
      parts =
          text_part 1 (λ v s. record s { topic = v }) from.topic
          ∷ text_part 2 (λ v s. record s { group = v }) from.group
          ∷ text_part 3 (λ v s. record s { tag = v }) from.tag
          ∷ text_part 4 (λ v s. record s { body = v }) from.body
          ∷ number_part 5 (λ v s. record s { delay_level = v }) from.delay_level
          ∷ []

      has : All (Has wire (produce_request_fields wire)) parts
      has = (
        (omega arith, omega arith, refl, valid.0),
        (
          (omega arith, omega arith, refl, valid.1),
          (
            (omega arith, omega arith, refl, valid.2),
            (
              (omega arith, omega arith, refl, valid.3),
              ((omega arith, omega arith, refl, valid.4), tt),
            ),
          ),
        ),
      )

  -- What is read is merged into the message that is there.
  merge-consume_request :
      (from r : ConsumeRequest) (u : Bytes) (f : ℕ)
      → IsConsumeRequest wire from
      → merge_partial wire
          (consume_request_fields wire)
          (suc (suc (suc f)))
          r
          u
          (consume_request_serialize wire from [])
        ≡ some (consume_request_merge_from from r, u)
  unfolding consume_request_fields consume_request_serialize consume_request_merge_from
  merge-consume_request from r u f valid =
      merge-write_parts wire laws (consume_request_fields wire) u parts r f refl has
    where
      parts : List (Part ConsumeRequest)
      parts =
          text_part 1 (λ v s. record s { topic = v }) from.topic
          ∷ text_part 2 (λ v s. record s { consumer_group = v }) from.consumer_group
          ∷ []

      has : All (Has wire (consume_request_fields wire)) parts
      has = (
        (omega arith, omega arith, refl, valid.0),
        ((omega arith, omega arith, refl, valid.1), tt),
      )

  -- What is read is merged into the message that is there.
  merge-consume_ack_request :
      (from r : ConsumeAckRequest) (u : Bytes) (f : ℕ)
      → IsConsumeAckRequest wire from
      → merge_partial wire
          (consume_ack_request_fields wire)
          (suc (suc (suc (suc (suc f)))))
          r
          u
          (consume_ack_request_serialize wire from [])
        ≡ some (consume_ack_request_merge_from from r, u)
  unfolding consume_ack_request_fields consume_ack_request_serialize consume_ack_request_merge_from
  merge-consume_ack_request from r u f valid =
      merge-write_parts wire laws (consume_ack_request_fields wire) u parts r f refl has
    where
      parts : List (Part ConsumeAckRequest)
      parts =
          text_part 1 (λ v s. record s { topic = v }) from.topic
          ∷ text_part 2 (λ v s. record s { msg_id = v }) from.msg_id
          ∷ text_part 3 (λ v s. record s { consumer_group = v }) from.consumer_group
          ∷ number_part 4 (λ v s. record s { status = v }) from.status
          ∷ []

      has : All (Has wire (consume_ack_request_fields wire)) parts
      has = (
        (omega arith, omega arith, refl, valid.0),
        (
          (omega arith, omega arith, refl, valid.1),
          (
            (omega arith, omega arith, refl, valid.2),
            ((omega arith, omega arith, refl, valid.3), tt),
          ),
        ),
      )

  -- With a library as documented, and fuel for six rounds of the loop or more: each of the three
  -- requests, with texts that the library takes, 32-bit numbers and no unknown fields, is read back from
  -- what was written of it, as it was.
  pub requests_read_back :
      (r : ProduceRequest) (s : ConsumeRequest) (t : ConsumeAckRequest) (f : ℕ)
      → IsProduceRequest wire r
      → IsConsumeRequest wire s
      → IsConsumeAckRequest wire t
      → (merge_partial wire
            (produce_request_fields wire)
            (suc (suc (suc (suc (suc (suc f))))))
            empty_produce_request
            []
            (produce_request_serialize wire r [])
          ≡ some (r, []))
        × (merge_partial wire
              (consume_request_fields wire)
              (suc (suc (suc (suc (suc (suc f))))))
              empty_consume_request
              []
              (consume_request_serialize wire s [])
            ≡ some (s, []))
        × (merge_partial wire
              (consume_ack_request_fields wire)
              (suc (suc (suc (suc (suc (suc f))))))
              empty_consume_ack_request
              []
              (consume_ack_request_serialize wire t [])
            ≡ some (t, []))
  unfolding produce_request_merge_from consume_request_merge_from consume_ack_request_merge_from
  requests_read_back r s t f h0 h1 h2 = (
    as_read _ _ _ (merge-produce_request r empty_produce_request [] f h0)
        (default_produce_request r),
    as_read _ _ _ (merge-consume_request s empty_consume_request [] (suc (suc (suc f))) h1)
        (default_consume_request s),
    as_read _ _ _ (merge-consume_ack_request t empty_consume_ack_request [] (suc f) h2)
        (default_consume_ack_request t),
  )
    where
      default_produce_request :
          (a : ProduceRequest) → produce_request_merge_from a empty_produce_request ≡ a
      default_produce_request a = ground arith

      default_consume_request :
          (a : ConsumeRequest) → consume_request_merge_from a empty_consume_request ≡ a
      default_consume_request a = ground arith

      default_consume_ack_request :
          (a : ConsumeAckRequest) → consume_ack_request_merge_from a empty_consume_ack_request ≡ a
      default_consume_ack_request a = ground arith
