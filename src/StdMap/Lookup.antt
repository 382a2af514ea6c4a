-- ===== src/StdMap/Lookup.antt =====
-- What a map answers after each operation.
use rocketmq_proxy.Prelude.{
  false, [], ◌∷◌, none, some, Less, same, same_iff, same_refl, if◌then◌else◌, arith, ◌≡◌, refl,
  Bool-cases, Option-cases, inl, inr,
}
use rocketmq_proxy.StdMap.{Map, first, find, place, overwrite, insert, assign, erase}

module _ {ℓ κ} {K : Type ℓ} {V : Type κ} ⦃o : Less K⦄ where
  find-place_self : (k : K) (v : V) (m : Map K V) → find k m ≡ none → find k (place k v m) ≡ some v
  unfolding find place
  find-place_self k v [] h = rw (same_refl k)
  find-place_self k v ((j, w) ∷ m) h =
      ground (arith, same_refl k, same_iff k j, find-place_self k v m)

  find-place_ne :
      (k j : K) (v : V) (m : Map K V) → same j k ≡ false → find j (place k v m) ≡ find j m
  unfolding find place
  find-place_ne k j v [] h = rw h
  find-place_ne k j v ((i, w) ∷ m) h = ground (arith, find-place_ne k j v m)

  find-overwrite_self :
      (k : K) (v w : V) (m : Map K V) → find k m ≡ some w → find k (overwrite k v m) ≡ some v
  unfolding find overwrite
  find-overwrite_self k v w [] h = cc
  find-overwrite_self k v w ((j, u) ∷ m) h = ground (arith, find-overwrite_self k v w m)

  find-overwrite_ne :
      (k j : K) (v : V) (m : Map K V) → same j k ≡ false → find j (overwrite k v m) ≡ find j m
  unfolding find overwrite
  find-overwrite_ne k j v [] h = refl
  find-overwrite_ne k j v ((i, w) ∷ m) h =
      ground (arith, same_iff k i, same_iff j i, same_iff j k, find-overwrite_ne k j v m)

  pub find-assign_self : (k : K) (v : V) (m : Map K V) → find k (assign k v m) ≡ some v
  unfolding assign
  find-assign_self k v m = elim (Option-cases (find k m)) [
    | inl e ↦ rw (e, assign) (find-place_self k v m e)
    | inr (w, e) ↦ rw (e, assign) (find-overwrite_self k v w m e)
  ]

  pub find-assign_ne :
      (k j : K) (v : V) (m : Map K V) → same j k ≡ false → find j (assign k v m) ≡ find j m
  unfolding assign
  find-assign_ne k j v m h = ground (arith, find-place_ne k j v m h, find-overwrite_ne k j v m h)

  -- `insert` keeps the value of a key that is there.
  pub find-insert_self : (k : K) (v : V) (m : Map K V) → find k (insert k v m) ≡ first (find k m) v
  unfolding insert
  find-insert_self k v m = elim (Option-cases (find k m)) [
    | inl e ↦ rw (e, insert) (find-place_self k v m e)
    | inr (w, e) ↦ rw (e, insert) e
  ]

  pub find-insert_ne :
      (k j : K) (v : V) (m : Map K V) → same j k ≡ false → find j (insert k v m) ≡ find j m
  unfolding insert
  find-insert_ne k j v m h = ground (arith, find-place_ne k j v m h)

  pub find-erase_ne : (k j : K) (m : Map K V) → same j k ≡ false → find j (erase k m) ≡ find j m
  unfolding find erase
  find-erase_ne k j [] h = refl
  find-erase_ne k j ((i, w) ∷ m) h =
      ground (arith, same_iff k i, same_iff j i, same_iff j k, find-erase_ne k j m)

  -- The laws without a side condition.
  pub find-assign :
      (k j : K) (v : V) (m : Map K V)
      → find j (assign k v m) ≡ (if same j k then some v else find j m)
  find-assign k j v m = elim (Bool-cases (same j k)) [
    | inl hit ↦ rw (hit, (same_iff j k).0 hit) (find-assign_self k v m)
    | inr miss ↦ rw miss (find-assign_ne k j v m miss)
  ]

  pub find-insert :
      (k j : K) (v : V) (m : Map K V)
      → find j (insert k v m) ≡ (if same j k then first (find k m) v else find j m)
  find-insert k j v m = elim (Bool-cases (same j k)) [
    | inl hit ↦ rw (hit, (same_iff j k).0 hit) (find-insert_self k v m)
    | inr miss ↦ rw miss (find-insert_ne k j v m miss)
  ]
