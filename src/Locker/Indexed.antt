-- ===== src/Locker/Indexed.antt =====
-- The pointers of a batch by message id, as the constructor makes them.
use rocketmq_proxy.Prelude.{
  ℕ, true, ◌||◌, ◌&&◌, [], ◌∷◌, nat_less, bytes_less, is_some, arith, ◌≡◌, refl, Option-cases, inl,
  inr, Bytes, same, same_iff, same_refl, All,
}
use rocketmq_proxy.StdMap.{Map, find, insert, keys}
use rocketmq_proxy.StdMap.Lookup.{find-assign, find-insert}
use rocketmq_proxy.Message.{msg_fetch_from_broker}
use rocketmq_proxy.Locker.{ConsumerUnitLocker, index_msg, add_msg, add_msgs}
use rocketmq_proxy.Locker.Marks.{contains, pointers, pointers_of}
use rocketmq_proxy.Locker.Build.{Batch, addresses}

pub contains-keys : (q : ℕ) (m : Map ℕ ℕ) → contains q (keys m) ≡ is_some (find q m)
unfolding contains find
contains-keys q [] = refl
contains-keys q ((p, v) ∷ m) = ground (arith, contains-keys q m)

pub contains-insert :
    (q p : ℕ) (m : Map ℕ ℕ) → contains q (keys (insert p 1 m)) ≡ same q p || contains q (keys m)
contains-insert q p m =
    ground
      (arith, contains-keys q m, contains-keys q (insert p 1 m), find-insert p q 1 m, same_iff q p)

-- A message adds its pointer to those of its id.
pub contains-index_msg :
    (id j : Bytes) (p q : ℕ) (ids : Map Bytes (Map ℕ ℕ))
    → contains q (pointers_of (find id (index_msg j p ids)))
      ≡ (same id j && same q p) || contains q (pointers_of (find id ids))
unfolding index_msg contains
contains-index_msg id j p q ids = elim (Option-cases (find j ids)) [
  | inl e ↦
      rw (e, index_msg)
        (ground
          (arith, e, find-insert j id (insert p 1 []) ids, contains-insert q p [], same_iff id j))
  | inr (queue, e) ↦
      rw (e, index_msg)
        (ground (
          arith,
          e,
          find-assign j id (insert p 1 queue) ids,
          contains-insert q p queue,
          same_iff id j,
        ))
]

module _ (now : ℕ) (group : Bytes) where
  pub pointers-add_msgs :
      (id : Bytes) (q : ℕ) (l : ConsumerUnitLocker) (msgs : Batch)
      → contains q (pointers id l) ≡ true
      → contains q (pointers id (add_msgs now group l msgs)) ≡ true
  unfolding add_msgs
  pointers-add_msgs id q l [] h = h
  pointers-add_msgs id q l ((p, msg) ∷ msgs) h =
      pointers-add_msgs id q (add_msg now group l (p, msg)) msgs
        (ground (arith, contains-index_msg id msg.msg_id p q l.id_msg_map))

  -- Every message is in the index under its id.
  pub indexed-add_msgs :
      (l : ConsumerUnitLocker) (msgs : Batch)
      → All (λ m. contains m.0 (pointers m.1.msg_id (add_msgs now group l msgs)) ≡ true) msgs
  unfolding add_msgs
  indexed-add_msgs l [] = tt
  indexed-add_msgs l ((p, msg) ∷ msgs) = (
    pointers-add_msgs msg.msg_id p (add_msg now group l (p, msg)) msgs (
        ground (
          arith,
          contains-index_msg msg.msg_id msg.msg_id p p l.id_msg_map,
          same_refl p,
          same_refl msg.msg_id,
        )),
    indexed-add_msgs (add_msg now group l (p, msg)) msgs,
  )

  -- Every message of the batch stands at one of the addresses.
  pub clients-add_msgs :
      (q : ℕ) (l : ConsumerUnitLocker) (msgs : Batch)
      → is_some (find q (add_msgs now group l msgs).client_status_map) ≡ true
      → is_some (find q l.client_status_map) || contains q (addresses msgs) ≡ true
  unfolding add_msgs contains
  clients-add_msgs q l [] h = ground arith
  clients-add_msgs q l ((p, msg) ∷ msgs) h = ground (
    arith,
    clients-add_msgs q (add_msg now group l (p, msg)) msgs h,
    find-insert p q msg_fetch_from_broker l.client_status_map,
  )
