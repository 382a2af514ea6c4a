-- ===== src/System/Alive/SendEvents.antt =====
-- The events, the requests and the callbacks of the calls that send a message.
use rocketmq_proxy.Prelude.{
  ℕ, suc, length-append, lt_of_get_elem?, ◌<◌, Bool, true, false, List, [], ◌∷◌, ◌++◌, some, Bytes,
  bytes_less, total, ap, length, get_elem?, set, arith, ◌≡◌, refl, inl, inr,
}
use rocketmq_proxy.Broker.{Broker, MqMessage}
use rocketmq_proxy.Proto.{ProduceReply}
use rocketmq_proxy.World.{
  World, process, finish, ProduceCallData, Action, request_produce, finish_produce, send,
}
use rocketmq_proxy.Calls
use rocketmq_proxy.Calls.{RequestType, response_success}
use rocketmq_proxy.Calls.Produce.{process_call}
use rocketmq_proxy.Calls.Produce.Branches.{
  with_new, waiting_call, failed, finished_with, with_new_keeps,
}
use rocketmq_proxy.System.{Step, handles, fails}
use rocketmq_proxy.System.Contract.{sent, answered, requested, finished, handled}
use rocketmq_proxy.System.Alive.Pool.{waiting}
use rocketmq_proxy.System.Alive.Quiet.{Hidden, hidden, with_hidden, IsSound, Starts}
use rocketmq_proxy.System.Alive.Kinds.{
  Produces, Consumes, Acks, produce_view, Consumes-emit, Acks-emit, Consumes-past, Acks-past,
}
use rocketmq_proxy.System.Alive.Invariant.{IsAlive, Runs, Runs-ran, Leaves}
use rocketmq_proxy.System.Alive.Sends.{
  Produces-new, Produces-end, Produces-send, Produces-refuse, Produces-settle, Produces-resend,
  sent-append,
}
use rocketmq_proxy.System.Alive.Producing.{sent_with, process_call_ends}

abbrev pub event : ℕ → Bool → Step
event a went_well = handles (record { type_ = Calls.request_produce; address = a }) went_well

-- The calls of the other kinds.
abbrev Others : World → List Action → List Step → Type 0
Others w acts past =
    Consumes w.consume_calls acts past (waiting w.consume_msg_units w.consume_msg_pool.data_queue)
    × Acks w.consume_ack_calls acts past

-- Whether an action or a step is none of theirs.
abbrev pub IsOurs : Action → Type 0
IsOurs x =
    (i : ℕ)
    → (requested Calls.request_consume i x ≡ 0)
      × (finished Calls.request_consume i x ≡ 0)
      × (requested Calls.request_consume_ack i x ≡ 0)
      × (finished Calls.request_consume_ack i x ≡ 0)

Others-emit :
    (w : World) (acts : List Action) (past : List Step) (x : Action)
    → IsOurs x
    → Others w acts past
    → Others w (acts ++ x ∷ []) past
Others-emit w acts past x ours (c, k) = (
  Consumes-emit w.consume_calls acts past
      (waiting w.consume_msg_units w.consume_msg_pool.data_queue) x (λ i. ((ours i).0, (ours i).1))
      c,
  Acks-emit w.consume_ack_calls acts past x (λ i. ((ours i).2, (ours i).3)) k,
)

module _ (past : List Step) (w : World) (v : IsAlive past w) (s : Step)
    (no_consume : (i : ℕ) → handled Calls.request_consume i s ≡ 0)
    (no_ack : (i : ℕ) → handled Calls.request_consume_ack i s ≡ 0) where
  -- A step that changes the calls that send, with actions of theirs.
  built :
      (h : Hidden) (cs : List ProduceCallData) (acts : List Action)
      → IsSound h
      → Produces cs acts (s ∷ past)
      → Others w acts past
      → IsAlive (s ∷ past) (record (with_hidden w h) { produce_calls = cs; actions = acts })
  built h cs acts sound p (c, k) = record {
    produces = p;
    consumes =
        Consumes-past w.consume_calls acts past
          (waiting w.consume_msg_units w.consume_msg_pool.data_queue) s no_consume c;
    acks = Acks-past w.consume_ack_calls acts past s no_ack k;
    in_range = v.in_range;
    settled = v.settled;
    sound = sound;
  }

  -- With one action.
  pub built_one :
      (h : Hidden) (cs : List ProduceCallData) (x : Action)
      → IsOurs x
      → IsSound h
      → Produces cs (w.actions ++ x ∷ []) (s ∷ past)
      → IsAlive
          (s ∷ past)
          (record (with_hidden w h) { produce_calls = cs; actions = w.actions ++ x ∷ [] })
  built_one h cs x ours sound p =
      built h cs (w.actions ++ x ∷ []) sound p
        (Others-emit w w.actions past x ours (v.consumes, v.acks))

  -- After a new call object, with one more action.
  built_two :
      (h : Hidden) (cs : List ProduceCallData) (x : Action)
      → IsOurs x
      → IsSound h
      → Produces cs ((with_new w).actions ++ x ∷ []) (s ∷ past)
      → IsAlive (s ∷ past) (record (with_hidden w h) {
        produce_calls = cs;
        actions = (with_new w).actions ++ x ∷ [];
      })
  built_two h cs x ours sound p = built h cs ((with_new w).actions ++ x ∷ []) sound p (
      Others-emit w (with_new w).actions past x ours (
        Others-emit w w.actions past (request_produce (length w.produce_calls))
          (λ i. (refl, refl, refl, refl)) (v.consumes, v.acks)))

-- The state in which a call object is deleted.
abbrev pub ended : World → ℕ → ProduceCallData → World
ended w a c = record w {
  produce_calls = set w.produce_calls a (record c { status = finish; deleted = true });
}

pub ended-IsAlive :
    (past : List Step) (w : World) (a : ℕ) (c : ProduceCallData) (went_well : Bool)
    → get_elem? w.produce_calls a ≡ some c
    → produce_view c ≡ (finish, false)
    → IsAlive past w
    → IsAlive (event a went_well ∷ past) (ended w a c)
ended-IsAlive past w a c went_well at_a e v =
    built past w v (event a went_well) (λ i. refl) (λ i. refl) (hidden w)
      (set w.produce_calls a (record c { status = finish; deleted = true })) w.actions v.sound
      (Produces-end w.produce_calls w.actions past v.produces a c
        (record c { status = finish; deleted = true }) (event a went_well) at_a e refl (λ i. refl)
        (λ i. refl))
      (v.consumes, v.acks)

module _ (past : List Step) (w : World) (a : ℕ) (d : ProduceCallData)
    (at_a : get_elem? w.produce_calls a ≡ some d) (waits : produce_view d ≡ (process, false))
    (v : IsAlive past w) where
  -- What `process` does with the call objects, when a new one has been made.
  abbrev pub Turns : Step → Type 0
  Turns s =
      ((d' : ProduceCallData) (r : ProduceReply)
        → produce_view d' ≡ (finish, false)
        → Produces (set (with_new w).produce_calls a d')
            ((with_new w).actions ++ finish_produce a r ∷ []) (s ∷ past))
      × ((msg : MqMessage)
          → Produces (with_new w).produce_calls ((with_new w).actions ++ send a msg ∷ [])
              (s ∷ past))

  -- `process`, in a step that is the event of the request, or the callback of a send that failed.
  pub process_call-Runs :
      (b : Broker) (s : Step)
      → Starts b
      → ((i : ℕ) → handled Calls.request_consume i s ≡ 0)
      → ((i : ℕ) → handled Calls.request_consume_ack i s ≡ 0)
      → Turns s
      → Runs (process_call b a) w (Leaves (IsAlive (s ∷ past)))
  process_call-Runs b s starts no_consume no_ack (refuses, sends) =
      let alive : d.deleted ≡ false = ap (λ x. x.1) waits in
      let (h, sound, how) = process_call_ends b starts w v.sound a d at_a alive in
      elim how [
        | inl (text, ran) ↦
            let d' = failed d text in
            Runs-ran _ w (finished_with (with_hidden (with_new w) h) a d text) tt _ ran (
              built_two past w v s no_consume no_ack h (set (with_new w).produce_calls a d')
                (finish_produce a d'.reply) (λ i. (refl, refl, refl, refl)) sound
                (refuses d' d'.reply (ap (λ x. (finish, x.1)) waits)))
        | inr (msg, ran) ↦ Runs-ran _ w (sent_with (with_hidden (with_new w) h) a msg) tt _ ran (
            built_two past w v s no_consume no_ack h (with_new w).produce_calls (send a msg)
              (λ i. (refl, refl, refl, refl)) sound (sends msg))
      ]

  abbrev more : Produces (with_new w).produce_calls (with_new w).actions past
  more = Produces-new w.produce_calls w.actions past v.produces

  abbrev at_new : get_elem? (with_new w).produce_calls a ≡ some d
  at_new = with_new_keeps w a d at_a

  pub request-Turns : total (handled Calls.request_produce a) past ≡ 0 → Turns (event a true)
  request-Turns first =
      let older : suc a < length (with_new w).produce_calls = omega (
        arith,
        length-append w.produce_calls (waiting_call ∷ []),
        lt_of_get_elem? w.produce_calls a d at_a,
      ) in
      (
        Produces-refuse _ _ past more a d at_new waits (event a true) (λ i. refl) (λ i. refl) first
            older,
        Produces-send _ _ past more a d at_new waits (event a true) (λ i. refl) (λ i. refl) first
            older,
      )

  pub retry-Turns :
      (text : Bytes) → total (answered a) past < total (sent a) w.actions → Turns (fails a text)
  retry-Turns text waited_for =
      let still : total (answered a) past < total (sent a) (with_new w).actions =
        omega (arith, sent-append a w.actions (request_produce (length w.produce_calls))) in
      (
        Produces-settle _ _ past more a d at_new waits (fails a text) (λ i. refl) (λ i. refl) still,
        Produces-resend _ _ past more a d at_new waits (fails a text) (λ i. refl) (λ i. refl) still,
      )
