-- ===== src/StdMap/Values.antt =====
-- A predicate of all values of a map.
use mathlib.Core.Path.{subst}
use rocketmq_proxy.Prelude.{
  [], ◌∷◌, some, Less, same, arith, ◌≡◌, Bool-cases, inl, inr, All, is_some,
}
use rocketmq_proxy.StdMap.{Map, find, place, overwrite, insert, assign, erase}

module _ {ℓ κ} {K : Type ℓ} {V : Type κ} ⦃o : Less K⦄ (P : V → Type 0) where
  abbrev pub AllValues : Map K V → Type 0
  AllValues = All (λ e. P e.1)

  pub find-AllValues : (k : K) (v : V) (m : Map K V) → AllValues m → find k m ≡ some v → P v
  unfolding find
  find-AllValues k v [] h e = absurd (cc)
  find-AllValues k v ((j, w) ∷ m) h e = elim (Bool-cases (same k j)) [
    | inl hit ↦ let same_value : w ≡ v = ground (arith, hit) in subst P same_value h.0
    | inr miss ↦ find-AllValues k v m h.1 (ground (arith, miss))
  ]

  pub place-AllValues : (k : K) (v : V) (m : Map K V) → P v → AllValues m → AllValues (place k v m)
  unfolding place
  place-AllValues k v [] p h = (p, tt)
  place-AllValues k v ((j, w) ∷ m) p h = elim (Bool-cases (o.less k j)) [
    | inl e ↦ rw e (p, h)
    | inr e ↦ rw e (h.0, place-AllValues k v m p h.1)
  ]

  overwrite-AllValues :
      (k : K) (v : V) (m : Map K V) → P v → AllValues m → AllValues (overwrite k v m)
  unfolding overwrite
  overwrite-AllValues k v [] p h = tt
  overwrite-AllValues k v ((j, w) ∷ m) p h = elim (Bool-cases (same k j)) [
    | inl e ↦ rw e (p, h.1)
    | inr e ↦ rw e (h.0, overwrite-AllValues k v m p h.1)
  ]

  pub insert-AllValues :
      (k : K) (v : V) (m : Map K V) → P v → AllValues m → AllValues (insert k v m)
  unfolding insert
  insert-AllValues k v m p h = elim (Bool-cases (is_some (find k m))) [
    | inl e ↦ rw e h
    | inr e ↦ rw e (place-AllValues k v m p h)
  ]

  pub assign-AllValues :
      (k : K) (v : V) (m : Map K V) → P v → AllValues m → AllValues (assign k v m)
  unfolding assign
  assign-AllValues k v m p h = elim (Bool-cases (is_some (find k m))) [
    | inl e ↦ rw e (overwrite-AllValues k v m p h)
    | inr e ↦ rw e (place-AllValues k v m p h)
  ]

  pub erase-AllValues : (k : K) (m : Map K V) → AllValues m → AllValues (erase k m)
  unfolding erase
  erase-AllValues k [] h = tt
  erase-AllValues k ((j, w) ∷ m) h = elim (Bool-cases (same k j)) [
    | inl e ↦ rw e h.1
    | inr e ↦ rw e (h.0, erase-AllValues k m h.1)
  ]
