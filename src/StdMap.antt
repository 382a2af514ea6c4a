-- ===== src/StdMap.antt =====
-- `std::map` as the program uses it: an association list in the order of its keys, with the
-- operations that MapTS.hpp and MsgWorker.cpp call. It is the language's library, not the
-- program's own code.
pub mod Lookup
pub mod Order
pub mod Values
use rocketmq_proxy.Prelude.{
  ℕ, Bool, true, false, List, [], ◌∷◌, Option, none, some, Less, same, if◌then◌else◌, is_some, map,
}

abbrev pub Map {ℓ κ} : Type ℓ → Type κ → Type (ℓ ⊔ κ)
Map K V = List (K × V)

-- A key that has a value keeps it.
abbrev pub first {ℓ} : {V : Type ℓ} → Option V → V → Option V
first none v = some v
first (some w) v = some w

module _ {ℓ κ} {K : Type ℓ} {V : Type κ} ⦃o : Less K⦄ where
  -- `find`: the value, or `end()`.
  unfoldable pub find : K → Map K V → Option V
  find k [] = none
  find k ((j, v) ∷ m) = if same k j then some v else find k m

  -- A new entry at the place that its key has in the order.
  unfoldable pub place : K → V → Map K V → Map K V
  place k v [] = (k, v) ∷ []
  place k v ((j, w) ∷ m) = if o.less k j then (k, v) ∷ (j, w) ∷ m else (j, w) ∷ place k v m

  -- A write to an entry that is there.
  unfoldable pub overwrite : K → V → Map K V → Map K V
  overwrite k v [] = []
  overwrite k v ((j, w) ∷ m) = if same k j then (j, v) ∷ m else (j, w) ∷ overwrite k v m

  -- `insert`: nothing happens if the key is there.
  unfoldable pub insert : K → V → Map K V → Map K V
  insert k v m = if is_some (find k m) then m else place k v m

  -- `m[k] = v`.
  unfoldable pub assign : K → V → Map K V → Map K V
  assign k v m = if is_some (find k m) then overwrite k v m else place k v m

  -- `erase(k)`.
  unfoldable pub erase : K → Map K V → Map K V
  erase k [] = []
  erase k ((j, w) ∷ m) = if same k j then m else (j, w) ∷ erase k m

-- The keys and the values in the order of iteration.
abbrev pub keys {ℓ κ} : {K : Type ℓ} {V : Type κ} → Map K V → List K
keys = map λ e. e.0

abbrev pub values {ℓ κ} : {K : Type ℓ} {V : Type κ} → Map K V → List V
values = map λ e. e.1
