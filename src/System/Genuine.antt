-- ===== src/System/Genuine.antt =====
-- Every reply of the server in every history: its code, and where the message comes from.
use rocketmq_proxy.Prelude.{
  ℕ, suc, true, List, [], ◌∷◌, ◌++◌, some, Bytes, nat_less, get_elem?, arith, ◌≡◌, refl, ◌⊎◌, inl,
  inr, All, All-mono, All-split, map, leb, bytes_less,
}
use mathlib.Core.Path.{subst}
use rocketmq_proxy.StdMap.Values.{AllValues, find-AllValues, assign-AllValues}
use rocketmq_proxy.Message.{MqMessageExt, MsgUnit}
use rocketmq_proxy.Locker.Heap.{step-heap}
use rocketmq_proxy.Locker.{ConsumerUnitLocker, msg_unit, add_msg, add_msgs, start, new}
use rocketmq_proxy.Broker.{Broker}
use rocketmq_proxy.World.{
  request_produce, request_consume, request_consume_ack, send, World, ok, Action, finish_produce,
  finish_consume, finish_consume_ack,
}
use rocketmq_proxy.Calls.{response_success, response_error, response_timeout}
use rocketmq_proxy.System.{
  Step, receives_produce, receives_consume, receives_ack, handles, matches, arrives, departs,
  succeeds, fails, gives_up, erases, passes, history,
}
use rocketmq_proxy.System.Lasting.{Lasting, is_plain, is_complete, ValidAfter}
use rocketmq_proxy.System.Histories.{Brought, history-Keeps}

-- The messages that the broker brings, in order.
abbrev pub brought : List Step → List MqMessageExt
brought [] = []
brought (arrives k a group msgs ∷ ss) = map (λ e. e.1) msgs ++ brought ss
brought (s ∷ ss) = brought ss

-- An entry of a list.
abbrev pub In : List MqMessageExt → MqMessageExt → Type 0
In src m = (n : ℕ) × (get_elem? src n ≡ some m)

self-In : (src : List MqMessageExt) → All (In src) src
self-In [] = tt
self-In (m ∷ src) =
    ((0, refl), All-mono (In src) (In (m ∷ src)) src (λ x (n, e). (suc n, e)) (self-In src))

-- A unit has the id and the body of a message of the list.
abbrev Stems : List MqMessageExt → MsgUnit → Type 0
Stems src u = (m : MqMessageExt) × In src m × (u.msg_id ≡ m.msg_id) × (u.body ≡ m.body)

-- A reply has a code of its kind, a message that is handed to a client is one of the list, and a
-- message that is sent is complete.
abbrev pub IsGenuine : List MqMessageExt → Action → Type 0
IsGenuine src (finish_produce a r) = (r.code ≡ response_success) ⊎ (r.code ≡ response_error)
IsGenuine src (finish_consume_ack a r) = (r.code ≡ response_success) ⊎ (r.code ≡ response_error)
IsGenuine src (finish_consume a r) =
    (r.code ≡ response_timeout)
    ⊎ ((r.code ≡ response_success)
        × (m : MqMessageExt) × In src m
        × (r.msg_id ≡ m.msg_id)
        × (r.body ≡ m.body))
IsGenuine src (send a msg) = is_complete msg ≡ true
IsGenuine src x = Unit

one_of_two : (n : ℕ) → leb n response_error ≡ true → (n ≡ response_success) ⊎ (n ≡ response_error)
one_of_two n e = ground arith

plain-IsGenuine : (src : List MqMessageExt) (x : Action) → is_plain x ≡ true → IsGenuine src x
plain-IsGenuine src (finish_produce a r) e = one_of_two r.code e
plain-IsGenuine src (finish_consume_ack a r) e = one_of_two r.code e
plain-IsGenuine src (finish_consume a r) e = inl (ground arith)
plain-IsGenuine src (request_produce a) e = tt
plain-IsGenuine src (request_consume a) e = tt
plain-IsGenuine src (request_consume_ack a) e = tt
plain-IsGenuine src (send a msg) e = e

module _ (src : List MqMessageExt) where
  abbrev genuine : Lasting
  genuine = record {
    Valid = λ l. AllValues (Stems src) l.heap;
    Right = IsGenuine src;
    step-Valid = λ l e v. rw (step-heap l e) v;
    handed-Right = λ l p msg a v e.
        let (m, i, ids, bodies) = find-AllValues (Stems src) p msg l.heap v e in
        inr (refl, m, i, ids, bodies);
    plain-Right = plain-IsGenuine src;
  }

  add_msgs-Stems :
      (now : ℕ) (group : Bytes) (l : ConsumerUnitLocker) (msgs : List (ℕ × MqMessageExt))
      → All (In src) (map (λ e. e.1) msgs)
      → AllValues (Stems src) l.heap
      → AllValues (Stems src) (add_msgs now group l msgs).heap
  unfolding add_msgs add_msg msg_unit
  add_msgs-Stems now group l [] i v = v
  add_msgs-Stems now group l ((p, m) ∷ msgs) i v =
      add_msgs-Stems now group (add_msg now group l (p, m)) msgs i.1
        (assign-AllValues (Stems src) p (msg_unit now group m) l.heap (m, i.0, refl, refl) v)

  steps-Brought : (ss : List Step) → All (In src) (brought ss) → All (Brought genuine) ss
  unfolding new start
  steps-Brought [] i = tt
  steps-Brought (arrives k a group msgs ∷ ss) i =
      let (here, later) = All-split (In src) (map (λ e. e.1) msgs) (brought ss) i in
      (λ now. add_msgs-Stems now group start msgs here tt, steps-Brought ss later)
  steps-Brought (receives_produce a r ∷ ss) i = (tt, steps-Brought ss i)
  steps-Brought (receives_consume a r ∷ ss) i = (tt, steps-Brought ss i)
  steps-Brought (receives_ack a r ∷ ss) i = (tt, steps-Brought ss i)
  steps-Brought (handles tag went_well ∷ ss) i = (tt, steps-Brought ss i)
  steps-Brought (matches ∷ ss) i = (tt, steps-Brought ss i)
  steps-Brought (departs k a ∷ ss) i = (tt, steps-Brought ss i)
  steps-Brought (succeeds a id ∷ ss) i = (tt, steps-Brought ss i)
  steps-Brought (fails a text ∷ ss) i = (tt, steps-Brought ss i)
  steps-Brought (gives_up k ∷ ss) i = (tt, steps-Brought ss i)
  steps-Brought (erases key ∷ ss) i = (tt, steps-Brought ss i)
  steps-Brought (passes n ∷ ss) i = (tt, steps-Brought ss i)

-- A server that starts without consumers and has replied to nobody, after any steps in any order
-- and for any clients, if the process has not ended: each reply to a consume call is RESPONSE_TIMEOUT,
-- or RESPONSE_SUCCESS with the id and the body of one message that the broker brought; the replies
-- to the other calls are RESPONSE_SUCCESS or RESPONSE_ERROR; and each message that is sent to the
-- broker has a topic, a tag and a body.
pub replies-IsGenuine :
    (b : Broker) (w w' : World) (ss : List Step)
    → w.consumer_units ≡ []
    → w.actions ≡ []
    → history b ss w ≡ ok (tt, w')
    → All (IsGenuine (brought ss)) w'.actions
replies-IsGenuine b w w' ss no_units no_actions went =
    let src = brought ss in
    let kept : ValidAfter (genuine src) (history b ss w) =
      (history-Keeps {L = genuine src} b ss (steps-Brought src ss (self-In src))).after w
        (rw no_units tt, rw no_actions tt) in
    (subst (ValidAfter (genuine src)) went kept).1
