-- ===== src/Locker/Build.antt =====
-- What the constructor builds for a batch whose units have distinct addresses.
use rocketmq_proxy.Prelude.{
  ℕ, zero, suc, false, List, [], ◌∷◌, ◌++◌, Option, none, some, nat_less, bytes_less, arith, ◌≡◌,
  refl, ap, ap₂, sym, ◌∙◌, Bytes, map, length, same_refl, append_assoc, append-nil,
}
use rocketmq_proxy.StdMap.{find}
use rocketmq_proxy.StdMap.Lookup.{find-assign}
use rocketmq_proxy.Message.{MqMessageExt, MsgUnit, new_msg_unit}
use rocketmq_proxy.Locker.{
  ConsumerUnitLocker, get_msg, take_front, msg_unit, start, add_msg, add_msgs, new,
}
use rocketmq_proxy.Locker.Marks.{contains}

abbrev pub Batch : Type 0
Batch = List (ℕ × MqMessageExt)

abbrev pub addresses : Batch → List ℕ
addresses = map λ m. m.0

-- No address twice.
abbrev pub Distinct : List ℕ → Type 0
Distinct [] = Unit {0}
Distinct (p ∷ ps) = (contains p ps ≡ false) × Distinct ps

module _ (now : ℕ) (group : Bytes) where
  pub fetched_arr-add_msgs :
      (l : ConsumerUnitLocker) (msgs : Batch)
      → (add_msgs now group l msgs).fetched_arr ≡ l.fetched_arr ++ addresses msgs
  unfolding add_msgs
  fetched_arr-add_msgs l [] = sym (append-nil l.fetched_arr)
  fetched_arr-add_msgs l ((p, msg) ∷ msgs) =
      fetched_arr-add_msgs (add_msg now group l (p, msg)) msgs
      ∙ append_assoc l.fetched_arr (p ∷ []) (addresses msgs)

  -- An address that is not among the new ones keeps its unit.
  heap-add_msgs_other :
      (l : ConsumerUnitLocker) (msgs : Batch) (p : ℕ)
      → contains p (addresses msgs) ≡ false
      → find p (add_msgs now group l msgs).heap ≡ find p l.heap
  unfolding add_msgs contains
  heap-add_msgs_other l [] p h = refl
  heap-add_msgs_other l ((q, msg) ∷ msgs) p h =
      heap-add_msgs_other (add_msg now group l (q, msg)) msgs p (ground arith)
      ∙ ground (arith, find-assign q p (msg_unit now group msg) l.heap)

  units-add_msgs :
      (l : ConsumerUnitLocker) (msgs : Batch)
      → Distinct (addresses msgs)
      → map (λ p. find p (add_msgs now group l msgs).heap) (addresses msgs)
        ≡ map (λ m. some (msg_unit now group m.1)) msgs
  unfolding add_msgs
  units-add_msgs l [] d = refl
  units-add_msgs l ((p, msg) ∷ msgs) d =
      ap₂ ◌∷◌
        (heap-add_msgs_other (add_msg now group l (p, msg)) msgs p d.0
          ∙ ground (arith, find-assign p p (msg_unit now group msg) l.heap, same_refl p))
        (units-add_msgs (add_msg now group l (p, msg)) msgs d.1)

-- The units that `n` calls of `getMsg` hand out, as long as they succeed.
unfoldable pub drain : ℕ → ConsumerUnitLocker → List (Option MsgUnit)
drain zero l = []
drain (suc n) l = elim (get_msg l) [ none ↦ [] | some (p, l') ↦ find p l'.heap ∷ drain n l' ]

pub get_msg_cons :
    (l : ConsumerUnitLocker) (p : ℕ) (ps : List ℕ)
    → l.fetched_arr ≡ p ∷ ps
    → get_msg l ≡ some (p, record l { fetched_arr = ps })
unfolding get_msg take_front
get_msg_cons l p ps e = ap (take_front l) e

pub get_msg_nil : (l : ConsumerUnitLocker) → l.fetched_arr ≡ [] → get_msg l ≡ none
unfolding get_msg take_front
get_msg_nil l e = ap (take_front l) e

drain_lem :
    (ps : List ℕ) (l : ConsumerUnitLocker)
    → l.fetched_arr ≡ ps
    → drain (length ps) l ≡ map (λ p. find p l.heap) ps
unfolding drain
drain_lem [] l e = refl
drain_lem (p ∷ ps) l e =
    rw (get_msg_cons l p ps e, drain)
      (ap (◌∷◌ (find p l.heap)) (drain_lem ps (record l { fetched_arr = ps }) refl))

-- A unit that is at its first status, with the members of a message.
abbrev pub unit_of : ℕ → Bytes → MqMessageExt → MsgUnit
unit_of now group msg = record {
  type = 1;
  msg_id = msg.msg_id;
  topic = msg.topic;
  group = group;
  body = msg.body;
  delay_level = msg.delay_time_level;
  status = 0;
  fetch_time = now;
}

-- For units at distinct addresses: as many calls of `getMsg` as the batch has messages hand out a
-- unit for each message, in the order of the batch, with the message's id, topic, body and delay
-- level, the consumer's group and the time at which the batch was made.
pub drain-new :
    (now : ℕ) (group : Bytes) (msgs : Batch)
    → Distinct (addresses msgs)
    → drain (length (addresses msgs)) (new now group msgs)
      ≡ map (λ m. some (unit_of now group m.1)) msgs
unfolding new msg_unit new_msg_unit
drain-new now group msgs d =
    drain_lem (addresses msgs) (new now group msgs) (fetched_arr-add_msgs now group start msgs)
    ∙ units-add_msgs now group start msgs d
