-- ===== src/Wire.antt =====
-- What the classes that protoc generated (Proxy.pb.cc) share: the library of protobuf as a
-- parameter, the writing of one field, and the loop that reads a message. Input and output are
-- lists of bytes; the set of a message's unknown fields is the library's, and opaque here.
pub mod Messages
pub mod Fields
pub mod Requests
pub mod Replies
pub mod Sizes
use rocketmq_proxy.Prelude.{
  ℕ, zero, suc, ◌+◌, ◌*◌, ◌/◌, ◌%◌, ◌^◌, ◌<◌, ◌==◌, leb, Bool, true, false, List, [], ◌∷◌, ◌++◌,
  Option, none, some, Bytes, length, if◌then◌else◌, ◌≡◌,
}
use rocketmq_proxy.QueueTs.{is_empty}

-- `ReadTagWithCutoffNoLastTag` (the tag, and the input after it; the tag 0 is the end), the readers
-- and writers of `WireFormatLite` and `WireFormat`, and the sizes that they compute.
pub record Wire : Type 0 where
  pub read_tag : Bytes → ℕ × Bytes
  pub read_string : Bytes → Option (Bytes × Bytes)
  pub read_int32 : Bytes → Option (ℕ × Bytes)
  pub verify_utf8_string : Bytes → Bool
  pub skip_field : ℕ → Bytes → Bytes → Option (Bytes × Bytes)
  pub write_string : ℕ → Bytes → Bytes
  pub write_int32 : ℕ → ℕ → Bytes
  pub serialize_unknown_fields : Bytes → Bytes
  pub string_size : Bytes → ℕ
  pub int32_size : ℕ → ℕ
  pub compute_unknown_fields_size : Bytes → ℕ

-- A text that the library takes.
pub record IsText (wire : Wire) (s : Bytes) : Type 0 where
  pub utf8 : wire.verify_utf8_string s ≡ true
  pub short : length s < 2 ^ 31

-- What the library documents: a field that was written is read back, behind its tag; nothing to
-- read is the tag 0; and a field below the number 16 has one byte for its tag.
pub record IsWire (wire : Wire) : Type 0 where
  pub read_end : wire.read_tag [] ≡ (0, [])
  pub read_written_string :
      (n : ℕ) (s rest : Bytes)
      → 0 < n
      → n < 16
      → length s < 2 ^ 31
      → (input : Bytes) × (wire.read_tag (wire.write_string n s ++ rest) ≡ (n * 8 + 2, input))
        × (wire.read_string input ≡ some (s, rest))
  pub read_written_int32 :
      (n v : ℕ) (rest : Bytes)
      → 0 < n
      → n < 16
      → v < 2 ^ 32
      → (input : Bytes) × (wire.read_tag (wire.write_int32 n v ++ rest) ≡ (n * 8, input))
        × (wire.read_int32 input ≡ some (v, rest))
  pub length_string :
      (n : ℕ) (s : Bytes) → n < 16 → length (wire.write_string n s) ≡ 1 + wire.string_size s
  pub length_int32 : (n v : ℕ) → n < 16 → length (wire.write_int32 n v) ≡ 1 + wire.int32_size v

-- A `case` of the `switch`: the number, the tag, and what is read into the message.
pub record Field (R : Type 0) : Type 0 where
  pub number : ℕ
  pub expected : ℕ
  pub read : Bytes → R → Option (R × Bytes)

module _ {R : Type 0} where
  -- `if (from.x().size() > 0)`, and `if (from.x() != 0)`.
  abbrev pub put_text : (Bytes → R → R) → Bytes → R → R
  put_text put s r = if is_empty s then r else put s r

  abbrev pub put_int32 : (ℕ → R → R) → ℕ → R → R
  put_int32 put v r = if v == 0 then r else put v r

  -- `ReadString`, and then `VerifyUtf8String`.
  abbrev pub after_string : Wire → (Bytes → R → R) → R → Option (Bytes × Bytes) → Option (R × Bytes)
  after_string wire put r none = none
  after_string wire put r (some (s, rest)) =
      if wire.verify_utf8_string s then some (put s r, rest) else none

  abbrev pub after_int32 : (ℕ → R → R) → R → Option (ℕ × Bytes) → Option (R × Bytes)
  after_int32 put r none = none
  after_int32 put r (some (v, rest)) = some (put v r, rest)

  abbrev pub text_field : Wire → ℕ → (Bytes → R → R) → Field R
  text_field wire n put = record {
    number = n;
    expected = n * 8 + 2;
    read = λ input r. after_string wire put r (wire.read_string input);
  }

  abbrev pub int32_field : Wire → ℕ → (ℕ → R → R) → Field R
  int32_field wire n put = record {
    number = n;
    expected = n * 8;
    read = λ input r. after_int32 put r (wire.read_int32 input);
  }

  -- The `switch` on the field's number, and the test of the tag; `none` is `handle_unusual`.
  abbrev pub select : ℕ → List (Field R) → Option (Field R)
  select tag [] = none
  select tag (f ∷ fs) =
      if tag / 8 == f.number
      then if tag % 256 == f.expected then some f else none
      else select tag fs

  abbrev pub choose : ℕ → List (Field R) → Option (Field R)
  choose tag fs = if leb tag 127 then select tag fs else none

  -- The loop of `MergePartialFromCodedStream`, into a message and its unknown fields, on fuel for
  -- the number of fields that are read; `none` is `false`.
  pub merge_partial : Wire → List (Field R) → ℕ → R → Bytes → Bytes → Option (R × Bytes)
  merge_partial wire fields zero r u input = none
  merge_partial wire fields (suc n) r u input = elim (choose (wire.read_tag input).0 fields) [
    | some f ↦ elim (f.read (wire.read_tag input).1 r) [
      | none ↦ none
      | some (r', rest) ↦ merge_partial wire fields n r' u rest
    ]
    | none ↦ elim ((wire.read_tag input).0 == 0) [
      | true ↦ some (r, u)
      | false ↦ elim (wire.skip_field (wire.read_tag input).0 u (wire.read_tag input).1) [
        | none ↦ none
        | some (u', rest) ↦ merge_partial wire fields n r u' rest
      ]
    ]
  ]

-- A field is written if it does not have its default. (What `VerifyUtf8String` finds when a text is
-- written is only logged.)
abbrev pub write_text : Wire → ℕ → Bytes → Bytes
write_text wire n s = if is_empty s then [] else wire.write_string n s

abbrev pub write_number : Wire → ℕ → ℕ → Bytes
write_number wire n v = if v == 0 then [] else wire.write_int32 n v

abbrev pub write_unknown : Wire → Bytes → Bytes
write_unknown wire u = if is_empty u then [] else wire.serialize_unknown_fields u

abbrev pub text_size : Wire → Bytes → ℕ
text_size wire s = if is_empty s then 0 else 1 + wire.string_size s

abbrev pub number_size : Wire → ℕ → ℕ
number_size wire v = if v == 0 then 0 else 1 + wire.int32_size v

abbrev pub unknown_size : Wire → Bytes → ℕ
unknown_size wire u = if is_empty u then 0 else wire.compute_unknown_fields_size u
