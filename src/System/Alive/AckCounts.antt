-- ===== src/System/Alive/AckCounts.antt =====
-- A call object that answers its request within the event of the request.
use rocketmq_proxy.Prelude.{
  ℕ, ◌+◌, Bool, true, false, List, [], ◌∷◌, ◌++◌, some, Bytes, bytes, bytes_less, total, length,
  get_elem?, set, arith, ◌≡◌, refl, get_elem?-set_self, get_elem?-append_old, length-append,
  lt_of_get_elem?,
}
use rocketmq_proxy.Proto.{ConsumeAckReply}
use rocketmq_proxy.World.{
  process, finish, ConsumeAckCallData, Action, request_consume_ack, finish_consume_ack,
}
use rocketmq_proxy.Calls
use rocketmq_proxy.Calls.ConsumeAck.{new_consume_ack_call}
use rocketmq_proxy.Calls.{response_error, response_success}
use rocketmq_proxy.System.{Step, handles}
use rocketmq_proxy.System.Contract.{one, handled}
use rocketmq_proxy.System.Alive.Counts.{Fits-new}
use rocketmq_proxy.System.Alive.Changes.{Fits-begin, Fits-finish}
use rocketmq_proxy.System.Alive.Kinds.{Acks, ack_view, nothing}

abbrev pub not_found : ConsumeAckCallData → Bytes
not_found d = bytes "msg[" ++ (d.request.msg_id ++ bytes "] cannot be found!")

-- The event of a tag.
abbrev pub event : ℕ → Bool → Step
event a went_well = handles (record { type_ = Calls.request_consume_ack; address = a }) went_well

-- A call object answers its request within the event of the request.
pub Acks-answer :
    (cs : List ConsumeAckCallData) (acts : List Action) (past : List Step) (a : ℕ)
    (d d' d'' : ConsumeAckCallData) (r : ConsumeAckReply)
    → get_elem? cs a ≡ some d
    → ack_view d ≡ (process, false)
    → ack_view d' ≡ (process, false)
    → ack_view d'' ≡ (finish, false)
    → total (handled Calls.request_consume_ack a) past ≡ 0
    → Acks cs acts past
    → Acks
        (set (set (cs ++ record new_consume_ack_call { status = process } ∷ []) a d') a d'')
        ((acts ++ request_consume_ack (length cs) ∷ []) ++ finish_consume_ack a r ∷ [])
        (event a true ∷ past)
Acks-answer cs acts past a d d' d'' r at_a e e' e'' first f =
    let fresh : ConsumeAckCallData = record new_consume_ack_call { status = process } in
    let t = Calls.request_consume_ack in
    let x : Action = request_consume_ack (length cs) in
    let more = cs ++ fresh ∷ [] in
    let there = get_elem?-append_old cs (fresh ∷ []) a d at_a in
    let q : ℕ → ℕ = λ i. one i a + 0 in
    let f₁ = Fits-new ack_view t cs acts past nothing fresh x refl (λ i. (refl, refl)) f in
    let f₂ =
      Fits-begin ack_view t more (acts ++ x ∷ []) past nothing a d there f₁ d' (event a true) q e e'
        (λ i. refl) first
        (omega (arith, length-append cs (fresh ∷ []), lt_of_get_elem? cs a d at_a)) (λ i. refl) in
    Fits-finish ack_view t (set more a d') (acts ++ x ∷ []) (event a true ∷ past) q a d'
      (get_elem?-set_self more a d' d there) f₂ d'' (finish_consume_ack a r) nothing e' e''
      (λ i. (refl, refl)) (λ i. refl)
