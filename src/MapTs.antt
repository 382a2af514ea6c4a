-- ===== src/MapTs.antt =====
-- MapTS.hpp. Each method holds `the_mutex` while it works on `the_map`, so it is one step. A call
-- that blocks has the result `none`; what the waiters on the condition variable do is theirs.
pub mod Spec
pub mod Keys
pub mod Updates
pub mod Examples
use rocketmq_proxy.Prelude.{
  ℕ, Bool, true, false, List, [], ◌∷◌, ◌++◌, Option, none, some, length, Less, if◌then◌else◌,
  is_some, zero, suc,
}
use rocketmq_proxy.StdMap.{Map, keys}
use rocketmq_proxy.StdMap

pub record MapTs {ℓ κ} (K : Type ℓ) (T : Type κ) : Type (ℓ ⊔ κ) where
  pub the_map : Map K T

module _ {ℓ κ} {K : Type ℓ} {T : Type κ} ⦃o : Less K⦄ where
  unfoldable pub insert : MapTs K T → K → T → MapTs K T
  insert m input_key input_value = record {
    the_map = StdMap.insert input_key input_value m.the_map;
  }

  -- The two branches of the test `the_map.end() == it`.
  unfoldable pub insert_or_update : MapTs K T → K → T → MapTs K T
  insert_or_update m input_key input_value =
      if is_some (StdMap.find input_key m.the_map)
      then record { the_map = StdMap.assign input_key input_value m.the_map }
      else record { the_map = StdMap.insert input_key input_value m.the_map }

  unfoldable pub try_get : MapTs K T → K → Option T
  try_get m input_key = StdMap.find input_key m.the_map

  -- The caller waits while the key is missing.
  unfoldable pub wait_and_get : MapTs K T → K → Option T
  wait_and_get m input_key = StdMap.find input_key m.the_map

  unfoldable pub erase : MapTs K T → K → MapTs K T
  erase m input_key = record { the_map = StdMap.erase input_key m.the_map }

module _ {ℓ κ} {K : Type ℓ} {T : Type κ} where
  unfoldable pub new : MapTs K T
  new = record { the_map = [] }

  unfoldable pub empty : MapTs K T → Bool
  empty m = elim m.the_map [ [] ↦ true | _ ∷ _ ↦ false ]

  unfoldable pub size : MapTs K T → ℕ
  size m = length m.the_map

  -- `keys.empty()` only asks whether the vector is empty, so the caller's entries stay.
  unfoldable pub get_all_keys : MapTs K T → List K → List K
  get_all_keys m ks = ks ++ keys m.the_map

  -- The vector of a caller that passes the same one each time, after `n` calls.
  pub get_all_keys_times : ℕ → MapTs K T → List K → List K
  get_all_keys_times zero m ks = ks
  get_all_keys_times (suc n) m ks = get_all_keys_times n m (get_all_keys m ks)

-- A call that changes the map.
pub data Op {ℓ κ} (K : Type ℓ) (T : Type κ) : Type (ℓ ⊔ κ) where
  inserts updates : K → T → Op K T
  erases : K → Op K T

pub run {ℓ κ} : {K : Type ℓ} {T : Type κ} ⦃o : Less K⦄ → MapTs K T → List (Op K T) → MapTs K T
run m [] = m
run m (inserts k v ∷ ops) = run (insert m k v) ops
run m (updates k v ∷ ops) = run (insert_or_update m k v) ops
run m (erases k ∷ ops) = run (erase m k) ops

-- `wait_next_insert`, for the calls that others make while it waits: the map after the first of them
-- that notifies, and the calls that are left; `none` while none of them does.
unfoldable pub wait_next_insert {ℓ κ} :
    {K : Type ℓ} {T : Type κ} ⦃o : Less K⦄
    → MapTs K T
    → List (Op K T)
    → Option (MapTs K T × List (Op K T))
wait_next_insert m [] = none
wait_next_insert m (inserts k v ∷ ops) = some (insert m k v, ops)
wait_next_insert m (updates k v ∷ ops) = some (insert_or_update m k v, ops)
wait_next_insert m (erases k ∷ ops) = wait_next_insert (erase m k) ops
