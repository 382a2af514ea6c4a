-- ===== src/MapTs/Spec.antt =====
-- The map against its contract: a partial function from keys to values.
use rocketmq_proxy.Prelude.{
  List, [], ◌∷◌, Option, none, some, Less, same, same_iff, if◌then◌else◌, ◌≡◌, refl, Bool-cases,
  Option-cases, inl, inr, ◌∙◌, ap,
}
use rocketmq_proxy.StdMap.{Map, first}
use rocketmq_proxy.StdMap
use rocketmq_proxy.StdMap.Lookup.{
  find-assign_self, find-assign_ne, find-insert_self, find-insert_ne, find-erase_ne,
}
use rocketmq_proxy.StdMap.Order.{
  IsOrdered, find-erase_self, insert-IsOrdered, assign-IsOrdered, erase-IsOrdered,
}
use rocketmq_proxy.MapTs.{
  MapTs, insert, insert_or_update, try_get, erase, new, Op, inserts, updates, erases, run,
}

-- What a partial function becomes when it is changed at one key.
abbrev pub at {ℓ κ} :
    {K : Type ℓ} {T : Type κ} ⦃o : Less K⦄ → K → Option T → (K → Option T) → K → Option T
at k r f j = if same j k then r else f j

module _ {ℓ κ} {K : Type ℓ} {T : Type κ} ⦃o : Less K⦄ where
  -- The contract of a history of calls.
  pub spec : (K → Option T) → List (Op K T) → K → Option T
  spec f [] = f
  spec f (inserts k v ∷ ops) = spec (at k (first (f k) v) f) ops
  spec f (updates k v ∷ ops) = spec (at k (some v) f) ops
  spec f (erases k ∷ ops) = spec (at k none f) ops

  abbrev pub Denotes : MapTs K T → (K → Option T) → Type (ℓ ⊔ κ)
  Denotes m f = IsOrdered m.the_map × ((k : K) → try_get m k ≡ f k)

  insert-Denotes :
      (m : MapTs K T) (f : K → Option T) (k : K) (v : T)
      → Denotes m f
      → Denotes (insert m k v) (at k (first (f k) v) f)
  unfolding insert try_get
  insert-Denotes m f k v (s, d) = (
    insert-IsOrdered k v m.the_map s,
    λ j. elim (Bool-cases (same j k)) [
      | inl hit ↦
          rw (hit, (same_iff j k).0 hit)
            (find-insert_self k v m.the_map ∙ ap (λ r. first r v) (d k))
      | inr miss ↦ rw miss (find-insert_ne k j v m.the_map miss ∙ d j)
    ],
  )

  insert_or_update-Denotes :
      (m : MapTs K T) (f : K → Option T) (k : K) (v : T)
      → Denotes m f
      → Denotes (insert_or_update m k v) (at k (some v) f)
  unfolding insert_or_update try_get
  insert_or_update-Denotes m f k v (s, d) = elim (Option-cases (StdMap.find k m.the_map)) [
    | inl e ↦
        rw (e, insert_or_update)
          (
            insert-IsOrdered k v m.the_map s,
            λ j. elim (Bool-cases (same j k)) [
              | inl hit ↦ rw (hit, (same_iff j k).0 hit) (find-insert_self k v m.the_map ∙ rw e)
              | inr miss ↦ rw miss (find-insert_ne k j v m.the_map miss ∙ d j)
            ],
          )
    | inr (w, e) ↦
        rw (e, insert_or_update)
          (
            assign-IsOrdered k v m.the_map s,
            λ j. elim (Bool-cases (same j k)) [
              | inl hit ↦ rw (hit, (same_iff j k).0 hit) (find-assign_self k v m.the_map)
              | inr miss ↦ rw miss (find-assign_ne k j v m.the_map miss ∙ d j)
            ],
          )
  ]

  erase-Denotes :
      (m : MapTs K T) (f : K → Option T) (k : K) → Denotes m f → Denotes (erase m k) (at k none f)
  unfolding erase try_get
  erase-Denotes m f k (s, d) = (
    erase-IsOrdered k m.the_map s,
    λ j. elim (Bool-cases (same j k)) [
      | inl hit ↦ rw (hit, (same_iff j k).0 hit) (find-erase_self k m.the_map s)
      | inr miss ↦ rw miss (find-erase_ne k j m.the_map miss ∙ d j)
    ],
  )

  run-Denotes :
      (m : MapTs K T) (f : K → Option T) (ops : List (Op K T))
      → Denotes m f
      → Denotes (run m ops) (spec f ops)
  unfolding run spec
  run-Denotes m f [] h = h
  run-Denotes m f (inserts k v ∷ ops) h =
      run-Denotes (insert m k v) _ ops (insert-Denotes m f k v h)
  run-Denotes m f (updates k v ∷ ops) h =
      run-Denotes (insert_or_update m k v) _ ops (insert_or_update-Denotes m f k v h)
  run-Denotes m f (erases k ∷ ops) h = run-Denotes (erase m k) _ ops (erase-Denotes m f k h)

  -- After every history of calls of `insert`, `insert_or_update` and `erase` on a new map,
  -- `try_get` answers for every key what the partial function does that the calls describe: an
  -- `insert` sets a key that has no value, an update sets it always, an `erase` unsets it.
  pub try_get-run : (ops : List (Op K T)) (k : K) → try_get (run new ops) k ≡ spec (λ _. none) ops k
  unfolding new
  try_get-run ops k =
      (run-Denotes new (λ _. none) ops (tt, unfold try_get StdMap.find in λ _. refl)).1 k
