-- ===== src/MapTs/Updates.antt =====
-- What is read after an update.
use rocketmq_proxy.Prelude.{some, ◌≡◌, ◌∙◌, Less, Option-cases, inl, inr}
use rocketmq_proxy.StdMap
use rocketmq_proxy.StdMap.Lookup.{find-assign_self, find-insert_self}
use rocketmq_proxy.MapTs.{MapTs, insert_or_update, try_get}

pub try_get-insert_or_update {ℓ κ} :
    {K : Type ℓ} {T : Type κ} ⦃o : Less K⦄ (m : MapTs K T) (k : K) (v : T)
    → try_get (insert_or_update m k v) k ≡ some v
unfolding try_get insert_or_update
try_get-insert_or_update m k v = elim (Option-cases (StdMap.find k m.the_map)) [
  | inl none_yet ↦ rw (none_yet, insert_or_update) (find-insert_self k v m.the_map ∙ rw none_yet)
  | inr (old, there) ↦ rw (there, insert_or_update) (find-assign_self k v m.the_map)
]
