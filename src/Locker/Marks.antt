-- ===== src/Locker/Marks.antt =====
-- What `setMsgStatus` writes, pointer by pointer.
use rocketmq_proxy.Prelude.{
  ℕ, Bool, true, false, ◌&&◌, ◌||◌, List, [], ◌∷◌, Option, none, some, nat_less, if◌then◌else◌,
  ◌==◌, arith, ◌≡◌, refl, Option-cases, inl, inr, same, ◌∙◌, Bytes, bytes_less,
}
use rocketmq_proxy.StdMap.{Map, find, keys}
use rocketmq_proxy.StdMap.Lookup.{find-assign}
use rocketmq_proxy.Message.{ClientMsgConsumeStatus, ConsumeStatus, reconsume_later}
use rocketmq_proxy.Locker.{ConsumerUnitLocker, mark_all, set_msg_status}

abbrev pub is_cons : List ℕ → Bool
is_cons [] = false
is_cons (x ∷ xs) = true

unfoldable pub contains : ℕ → List ℕ → Bool
contains p [] = false
contains p (q ∷ qs) = same p q || contains p qs

-- The pointers that the index has for a message id.
abbrev pub pointers_of : Option (Map ℕ ℕ) → List ℕ
pointers_of none = []
pointers_of (some queue) = keys queue

abbrev pub pointers : Bytes → ConsumerUnitLocker → List ℕ
pointers id l = pointers_of (find id l.id_msg_map)

module _ (id : Bytes) (s : ConsumeStatus) (cs : ClientMsgConsumeStatus) where
  mark_all_ret :
      (ps : List ℕ) (ret : Bool) (l : ConsumerUnitLocker)
      → (mark_all id s cs ps (ret, l)).0 ≡ (ret || is_cons ps)
  unfolding mark_all
  mark_all_ret [] ret l = ground arith
  mark_all_ret (p ∷ []) ret l = ground arith
  mark_all_ret (p ∷ q ∷ ps) ret l = mark_all_ret (q ∷ ps) true _ ∙ ground arith

  mark_all_status :
      (ps : List ℕ) (ret : Bool) (l : ConsumerUnitLocker) (p : ℕ)
      → find p (mark_all id s cs ps (ret, l)).1.status_map
        ≡ (if contains p ps then some s else find p l.status_map)
  unfolding mark_all contains
  mark_all_status [] ret l p = refl
  mark_all_status (q ∷ ps) ret l p =
      mark_all_status ps true _ p ∙ ground (arith, find-assign q p s l.status_map)

  mark_all_client :
      (ps : List ℕ) (ret : Bool) (l : ConsumerUnitLocker) (p : ℕ)
      → find p (mark_all id s cs ps (ret, l)).1.client_status_map
        ≡ (if contains p ps then some cs else find p l.client_status_map)
  unfolding mark_all contains
  mark_all_client [] ret l p = refl
  mark_all_client (q ∷ ps) ret l p =
      mark_all_client ps true _ p ∙ ground (arith, find-assign q p cs l.client_status_map)

  mark_all_reconsume :
      (ps : List ℕ) (ret : Bool) (l : ConsumerUnitLocker) (j : Bytes)
      → find j (mark_all id s cs ps (ret, l)).1.reconsume_map ≡ (
          if is_cons ps && (s == reconsume_later) && same j id
          then some 1
          else find j l.reconsume_map)
  unfolding mark_all
  mark_all_reconsume [] ret l j = refl
  mark_all_reconsume (q ∷ []) ret l j = ground (arith, find-assign id j 1 l.reconsume_map)
  mark_all_reconsume (q ∷ r ∷ ps) ret l j =
      mark_all_reconsume (r ∷ ps) true _ j ∙ ground (arith, find-assign id j 1 l.reconsume_map)

  -- What the marks leave alone.
  mark_all_frame :
      (ps : List ℕ) (ret : Bool) (l : ConsumerUnitLocker)
      → let l' = (mark_all id s cs ps (ret, l)).1 in
        (l'.fetched_arr ≡ l.fetched_arr)
        × (l'.client_status ≡ l.client_status)
        × (l'.id_msg_map ≡ l.id_msg_map)
        × (l'.heap ≡ l.heap)
  unfolding mark_all
  mark_all_frame [] ret l = (refl, refl, refl, refl)
  mark_all_frame (p ∷ ps) ret l = mark_all_frame ps true _

pub set_msg_status_frame :
    (id : Bytes) (s : ConsumeStatus) (cs : ClientMsgConsumeStatus) (l : ConsumerUnitLocker)
    → let l' = (set_msg_status id s cs l).1 in
      (l'.fetched_arr ≡ l.fetched_arr)
      × (l'.client_status ≡ l.client_status)
      × (l'.id_msg_map ≡ l.id_msg_map)
      × (l'.heap ≡ l.heap)
unfolding set_msg_status
set_msg_status_frame id s cs l = elim (Option-cases (find id l.id_msg_map)) [
  | inl e ↦ rw (e, set_msg_status) (refl, refl, refl, refl)
  | inr (queue, e) ↦ rw (e, set_msg_status) (mark_all_frame id s cs (keys queue) false l)
]

-- `setMsgStatus` answers `true` exactly if the index has a pointer for the message id. Every
-- pointer of that id gets both statuses and every other pointer keeps its own; a status
-- `RECONSUME_LATER` is also noted under the message id, and no other note changes.
pub set_msg_status_lem :
    (id : Bytes) (s : ConsumeStatus) (cs : ClientMsgConsumeStatus) (l : ConsumerUnitLocker) (p : ℕ)
    (j : Bytes)
    → let (ret, l') = set_msg_status id s cs l in
      let ps = pointers id l in
      (ret ≡ is_cons ps)
      × (find p l'.status_map ≡ (if contains p ps then some s else find p l.status_map))
      × (find p l'.client_status_map
          ≡ (if contains p ps then some cs else find p l.client_status_map))
      × (find j l'.reconsume_map ≡ (
          if is_cons ps && (s == reconsume_later) && same j id
          then some 1
          else find j l.reconsume_map))
unfolding set_msg_status contains
set_msg_status_lem id s cs l p j = elim (Option-cases (find id l.id_msg_map)) [
  | inl e ↦ rw (e, set_msg_status) (refl, refl, refl, refl)
  | inr (queue, e) ↦
      rw (e, set_msg_status)
        (
          mark_all_ret id s cs (keys queue) false l,
          mark_all_status id s cs (keys queue) false l p,
          mark_all_client id s cs (keys queue) false l p,
          mark_all_reconsume id s cs (keys queue) false l j,
        )
]
