-- ===== src/Locker/Owned.antt =====
-- The pointers of a batch, each in the index under the id of its unit.
use rocketmq_proxy.Prelude.{
  ℕ, true, false, List, [], ◌∷◌, some, nat_less, bytes_less, is_some, arith, ◌≡◌, refl, Bytes, same,
  same_iff, same_refl, Bool-cases, inl, inr,
}
use rocketmq_proxy.StdMap.{find}
use rocketmq_proxy.StdMap.Lookup.{find-assign}
use rocketmq_proxy.Message.{MqMessageExt, MsgUnit, ClientMsgConsumeStatus, is_ack, reconsume_later}
use rocketmq_proxy.Locker.{ConsumerUnitLocker, msg_unit, add_msg, add_msgs}
use rocketmq_proxy.Locker.Marks.{contains, is_cons, pointers}
use rocketmq_proxy.Locker.Build.{Batch, addresses, Distinct}
use rocketmq_proxy.Locker.Indexed.{contains-index_msg}

-- A pointer is in the index only under the id of its unit.
abbrev pub Owned : ConsumerUnitLocker → Type 0
Owned l =
    (id : Bytes) (p : ℕ)
    → contains p (pointers id l) ≡ true
    → (u : MsgUnit) × (find p l.heap ≡ some u) × (u.msg_id ≡ id)

-- A message that is acknowledged with `RECONSUME_LATER` is noted.
abbrev pub Noted : ConsumerUnitLocker → Type 0
Noted l =
    (id : Bytes) (p : ℕ) (c : ClientMsgConsumeStatus)
    → contains p (pointers id l) ≡ true
    → find p l.client_status_map ≡ some c
    → is_ack c ≡ true
    → find p l.status_map ≡ some reconsume_later
    → is_some (find id l.reconsume_map) ≡ true

pub contains_cons : (p : ℕ) (ps : List ℕ) → contains p ps ≡ true → is_cons ps ≡ true
unfolding contains
contains_cons p [] h = cc
contains_cons p (q ∷ ps) h = refl

-- An id has the pointers of one message id only.
pub Owned-once :
    (l : ConsumerUnitLocker) (id j : Bytes) (p : ℕ)
    → Owned l
    → contains p (pointers id l) ≡ true
    → contains p (pointers j l) ≡ true
    → id ≡ j
Owned-once l id j p owned h k =
    let (u, e, f) = owned id p h in let (v, e', f') = owned j p k in ground (arith, e, f, e', f')

pub add_msg-Owned :
    (now : ℕ) (group : Bytes) (l : ConsumerUnitLocker) (p : ℕ) (msg : MqMessageExt)
    → ((id : Bytes) → contains p (pointers id l) ≡ false)
    → Owned l
    → Owned (add_msg now group l (p, msg))
unfolding add_msg msg_unit
add_msg-Owned now group l p msg fresh owned id q h = elim (Bool-cases (same p q)) [
  | inl hit ↦ (
    msg_unit now group msg,
    ground (arith, find-assign p q (msg_unit now group msg) l.heap, hit, same_iff p q, same_refl p),
    ground (
      arith,
      contains-index_msg id msg.msg_id p q l.id_msg_map,
      h,
      hit,
      same_iff p q,
      fresh id,
      same_iff id msg.msg_id,
    ),
  )
  | inr miss ↦
      let (u, e, f) = owned id q (
        ground (
          arith,
          contains-index_msg id msg.msg_id p q l.id_msg_map,
          h,
          miss,
          same_iff p q,
          same_iff q p,
        )) in
      (
        u,
        ground (
          arith,
          find-assign p q (msg_unit now group msg) l.heap,
          miss,
          same_iff p q,
          same_iff q p,
          e,
        ),
        f,
      )
]

-- None of the addresses is in the index.
abbrev pub Fresh : ConsumerUnitLocker → List ℕ → Type 0
Fresh l ps = (q : ℕ) → contains q ps ≡ true → (id : Bytes) → contains q (pointers id l) ≡ false

pub add_msgs-Owned :
    (now : ℕ) (group : Bytes) (l : ConsumerUnitLocker) (msgs : Batch)
    → Distinct (addresses msgs)
    → Fresh l (addresses msgs)
    → Owned l
    → Owned (add_msgs now group l msgs)
unfolding add_msgs contains
add_msgs-Owned now group l [] d fresh owned = owned
add_msgs-Owned now group l ((p, msg) ∷ msgs) d fresh owned =
    add_msgs-Owned now group (add_msg now group l (p, msg)) msgs d.1 still
      (add_msg-Owned now group l p msg (fresh p (ground (arith, same_refl p))) owned)
  where
    still : Fresh (add_msg now group l (p, msg)) (addresses msgs)
    still q h id =
        unfold add_msg in
        ground (
          arith,
          contains-index_msg id msg.msg_id p q l.id_msg_map,
          fresh q,
          fresh q (ground (arith, h)) id,
          d.0,
          h,
          same_iff q p,
        )
