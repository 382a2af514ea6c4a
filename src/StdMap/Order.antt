-- ===== src/StdMap/Order.antt =====
-- The entries stay in the order of their keys, each key once.
use rocketmq_proxy.Prelude.{
  true, [], ◌∷◌, none, Less, same_iff, arith, ◌≡◌, refl, Bool-cases, inl, inr, All,
}
use rocketmq_proxy.StdMap.{Map, find, place, overwrite, insert, assign, erase}

module _ {ℓ κ} {K : Type ℓ} {V : Type κ} ⦃o : Less K⦄ where
  -- Every key of `m` is above `k`.
  abbrev pub Above : K → Map K V → Type 0
  Above k m = All (λ e. o.less k e.0 ≡ true) m

  abbrev pub IsOrdered : Map K V → Type 0
  IsOrdered [] = Unit {0}
  IsOrdered ((k, v) ∷ m) = Above k m × IsOrdered m

  Above-mono : (j k : K) (m : Map K V) → o.less j k ≡ true → Above k m → Above j m
  Above-mono j k [] h a = tt
  Above-mono j k ((i, v) ∷ m) h a = (o.less_trans j k i h a.0, Above-mono j k m h a.1)

  -- A key below all others is not there.
  pub find-Above : (k : K) (m : Map K V) → Above k m → find k m ≡ none
  unfolding find
  find-Above k [] a = refl
  find-Above k ((i, v) ∷ m) a = ground (arith, same_iff k i, o.less_irrefl k, find-Above k m)

  pub find-erase_self : (k : K) (m : Map K V) → IsOrdered m → find k (erase k m) ≡ none
  unfolding find erase
  find-erase_self k [] h = refl
  find-erase_self k ((i, v) ∷ m) h =
      ground (arith, same_iff k i, find-Above i m h.0, find-erase_self k m h.1)

  place-Above :
      (j k : K) (v : V) (m : Map K V) → o.less j k ≡ true → Above j m → Above j (place k v m)
  unfolding place
  place-Above j k v [] h a = (h, tt)
  place-Above j k v ((i, w) ∷ m) h a = ground (arith, place-Above j k v m h a.1)

  place-IsOrdered :
      (k : K) (v : V) (m : Map K V) → find k m ≡ none → IsOrdered m → IsOrdered (place k v m)
  unfolding find place
  place-IsOrdered k v [] e h = (tt, tt)
  place-IsOrdered k v ((i, w) ∷ m) e h = elim (Bool-cases (o.less k i)) [
    | inl below ↦ rw below ((below, Above-mono k i m below h.0), h)
    | inr above ↦ rw above (
      place-Above i k v m
          (elim (Bool-cases (o.less i k)) [
            | inl up ↦ up
            | inr down ↦ ground (arith, same_iff k i, o.less_connex k i above down)
          ])
          h.0,
      place-IsOrdered k v m (ground arith) h.1,
    )
  ]

  overwrite-Above : (j k : K) (v : V) (m : Map K V) → Above j m → Above j (overwrite k v m)
  unfolding overwrite
  overwrite-Above j k v [] a = tt
  overwrite-Above j k v ((i, w) ∷ m) a = ground (arith, overwrite-Above j k v m a.1)

  overwrite-IsOrdered : (k : K) (v : V) (m : Map K V) → IsOrdered m → IsOrdered (overwrite k v m)
  unfolding overwrite
  overwrite-IsOrdered k v [] h = tt
  overwrite-IsOrdered k v ((i, w) ∷ m) h =
      ground (arith, overwrite-Above i k v m h.0, overwrite-IsOrdered k v m h.1)

  pub insert-IsOrdered : (k : K) (v : V) (m : Map K V) → IsOrdered m → IsOrdered (insert k v m)
  unfolding insert
  insert-IsOrdered k v m h = ground (arith, place-IsOrdered k v m)

  pub assign-IsOrdered : (k : K) (v : V) (m : Map K V) → IsOrdered m → IsOrdered (assign k v m)
  unfolding assign
  assign-IsOrdered k v m h = ground (arith, place-IsOrdered k v m, overwrite-IsOrdered k v m h)

  erase-Above : (j k : K) (m : Map K V) → Above j m → Above j (erase k m)
  unfolding erase
  erase-Above j k [] a = tt
  erase-Above j k ((i, w) ∷ m) a = ground (arith, erase-Above j k m a.1)

  pub erase-IsOrdered : (k : K) (m : Map K V) → IsOrdered m → IsOrdered (erase k m)
  unfolding erase
  erase-IsOrdered k [] h = tt
  erase-IsOrdered k ((i, w) ∷ m) h = ground (arith, erase-Above i k m h.0, erase-IsOrdered k m h.1)
