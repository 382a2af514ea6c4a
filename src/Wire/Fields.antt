-- ===== src/Wire/Fields.antt =====
-- What the loop does with a field that was written.
use rocketmq_proxy.Prelude.{
  ℕ, suc, ◌+◌, ◌*◌, ◌^◌, ◌<◌, ◌==◌, List, [], ◌∷◌, ◌++◌, Option, none, some, Bytes, ◌≡◌, refl,
  arith, All, Bool-cases, inl, inr, ◌∙◌, ap, sym,
}
use rocketmq_proxy.Wire.{
  Wire, IsWire, IsText, Field, text_field, int32_field, put_text, put_int32, choose, merge_partial,
  write_text, write_number,
}

-- A field with what is to be written in it.
pub data Part (R : Type 0) : Type 0 where
  text_part : ℕ → (Bytes → R → R) → Bytes → Part R
  number_part : ℕ → (ℕ → R → R) → ℕ → Part R

abbrev pub write_parts : {R : Type 0} → Wire → List (Part R) → Bytes
write_parts wire [] = []
write_parts wire (text_part n put s ∷ ps) = write_text wire n s ++ write_parts wire ps
write_parts wire (number_part n put v ∷ ps) = write_number wire n v ++ write_parts wire ps

abbrev pub put_parts : {R : Type 0} → List (Part R) → R → R
put_parts [] r = r
put_parts (text_part n put s ∷ ps) r = put_parts ps (put_text put s r)
put_parts (number_part n put v ∷ ps) r = put_parts ps (put_int32 put v r)

-- Fuel for the parts and for the end.
abbrev pub fuel_for : {R : Type 0} → List (Part R) → ℕ → ℕ
fuel_for [] f = suc f
fuel_for (p ∷ ps) f = suc (fuel_for ps f)

fuel_for-suc : {R : Type 0} (ps : List (Part R)) (f : ℕ) → fuel_for ps (suc f) ≡ suc (fuel_for ps f)
fuel_for-suc [] f = refl
fuel_for-suc (p ∷ ps) f = ap suc (fuel_for-suc ps f)

-- The message has the field, under a number that the tag's byte holds.
abbrev pub Has : {R : Type 0} → Wire → List (Field R) → Part R → Type 0
Has wire fields (text_part n put s) =
    (0 < n) × (n < 16) × (choose (n * 8 + 2) fields ≡ some (text_field wire n put)) × IsText wire s
Has wire fields (number_part n put v) =
    (0 < n) × (n < 16) × (choose (n * 8) fields ≡ some (int32_field wire n put)) × (v < 2 ^ 32)

module _ (wire : Wire) (laws : IsWire wire) {R : Type 0} (fields : List (Field R)) (u : Bytes)
    (X : Option (R × Bytes)) where
  -- The end of the input.
  merge_partial_end :
      (r : R) (f : ℕ)
      → choose 0 fields ≡ none
      → merge_partial wire fields (suc f) r u [] ≡ some (r, u)
  unfolding merge_partial
  merge_partial_end r f none_chosen = ground (arith, laws.read_end)

  merge_partial_step :
      (f : ℕ) (r r' : R) (input rest rest' : Bytes) (tag : ℕ) (field : Field R)
      → wire.read_tag input ≡ (tag, rest)
      → choose tag fields ≡ some field
      → field.read rest r ≡ some (r', rest')
      → merge_partial wire fields (suc f) r u input ≡ merge_partial wire fields f r' u rest'
  unfolding merge_partial
  merge_partial_step f r r' input rest rest' tag field tagged chosen read =
      ground (arith, tagged, chosen, read)

  -- A text: if what comes after it is read well with some fuel, then so is the text and what comes
  -- after it with one more.
  merge_partial_text :
      (n : ℕ) (put : Bytes → R → R) (s rest : Bytes) (r : R) (k : ℕ → ℕ)
      → ((g : ℕ) → k (suc g) ≡ suc (k g))
      → 0 < n
      → n < 16
      → choose (n * 8 + 2) fields ≡ some (text_field wire n put)
      → IsText wire s
      → ((g : ℕ) → merge_partial wire fields (k g) (put_text put s r) u rest ≡ X)
      → (f : ℕ) → merge_partial wire fields (suc (k f)) r u (write_text wire n s ++ rest) ≡ X
  merge_partial_text n put [] rest r k k_suc positive small chosen text later f =
      ap (λ m. merge_partial wire fields m r u rest) (sym (k_suc f)) ∙ later (suc f)
  merge_partial_text n put (x ∷ xs) rest r k k_suc positive small chosen text later f =
      let (input, tagged, read) =
        laws.read_written_string n (x ∷ xs) rest positive small text.short in
      merge_partial_step (k f) r (put (x ∷ xs) r) _ input rest (n * 8 + 2) (text_field wire n put)
        tagged chosen (rw (read, text.utf8) refl)
      ∙ later f

  merge_partial_int32 :
      (n : ℕ) (put : ℕ → R → R) (v : ℕ) (rest : Bytes) (r : R) (k : ℕ → ℕ)
      → ((g : ℕ) → k (suc g) ≡ suc (k g))
      → 0 < n
      → n < 16
      → choose (n * 8) fields ≡ some (int32_field wire n put)
      → v < 2 ^ 32
      → ((g : ℕ) → merge_partial wire fields (k g) (put_int32 put v r) u rest ≡ X)
      → (f : ℕ) → merge_partial wire fields (suc (k f)) r u (write_number wire n v ++ rest) ≡ X
  merge_partial_int32 n put v rest r k k_suc positive small chosen fits later f =
      elim (Bool-cases (v == 0)) [
        | inl e ↦ rw e (
            ap (λ m. merge_partial wire fields m r u rest) (sym (k_suc f))
            ∙ (rw e at later (suc f)))
        | inr e ↦
            let (input, tagged, read) = laws.read_written_int32 n v rest positive small fits in
            rw e (
              merge_partial_step (k f) r (put v r) _ input rest (n * 8) (int32_field wire n put)
                tagged chosen (rw read refl)
              ∙ (rw e at later f))
      ]

-- What is written of some fields of a message is read into the message that is there.
pub merge-write_parts :
    (wire : Wire) (laws : IsWire wire) {R : Type 0} (fields : List (Field R)) (u : Bytes)
    (ps : List (Part R)) (r : R) (f : ℕ)
    → choose 0 fields ≡ none
    → All (Has wire fields) ps
    → merge_partial wire fields (fuel_for ps f) r u (write_parts wire ps) ≡ some (put_parts ps r, u)
merge-write_parts wire laws fields u [] r f ends has =
    merge_partial_end wire laws fields u none r f ends
merge-write_parts wire laws fields u (text_part n put s ∷ ps) r f ends has =
    merge_partial_text wire laws fields u _ n put s _ r (fuel_for ps) (fuel_for-suc ps) has.0.0
      has.0.1 has.0.2 has.0.3
      (λ g. merge-write_parts wire laws fields u ps (put_text put s r) g ends has.1) f
merge-write_parts wire laws fields u (number_part n put v ∷ ps) r f ends has =
    merge_partial_int32 wire laws fields u _ n put v _ r (fuel_for ps) (fuel_for-suc ps) has.0.0
      has.0.1 has.0.2 has.0.3
      (λ g. merge-write_parts wire laws fields u ps (put_int32 put v r) g ends has.1) f
