-- ===== src/System/Alive/Consumes.antt =====
-- The events of the consume calls find their call objects.
use rocketmq_proxy.Prelude.{
  ℕ, Bool, true, false, List, [], ◌∷◌, ◌++◌, some, Bytes, bytes_less, total, ap, length, get_elem?,
  set, arith, ◌≡◌, refl, All-mono, get_elem?-append_old, get_elem?-append_new, set-append_new,
  length-append, lt_of_get_elem?,
}
use rocketmq_proxy.StdMap.Values.{AllValues}
use rocketmq_proxy.QueueTs
use rocketmq_proxy.MapTs.{MapTs}
use rocketmq_proxy.World.{
  World, ok, process, finish, ConsumeCallData, ConsumeMsgUnit, new_consume_msg_unit, Action,
  request_consume,
}
use rocketmq_proxy.Calls
use rocketmq_proxy.Calls.{get_consume, put_consume}
use rocketmq_proxy.Calls.Consume.{new, new_consume_call, process_call}
use rocketmq_proxy.System.{Step, handles}
use rocketmq_proxy.System.Contract.{handled}
use rocketmq_proxy.System.Alive.Counts.{Fits-new}
use rocketmq_proxy.System.Alive.Changes.{Fits-begin, Fits-end}
use rocketmq_proxy.System.Alive.Pool.{
  waiting, InRange-new, waiting-new, IsSettled, append-IsSettled,
}
use rocketmq_proxy.System.Alive.Quiet.{Hidden, with_hidden, IsSound}
use rocketmq_proxy.System.Alive.Kinds.{
  consume_view, Produces-emit, Acks-emit, Produces-past, Acks-past,
}
use rocketmq_proxy.System.Alive.Invariant.{IsAlive}

abbrev pub event : ℕ → Bool → Step
event a went_well = handles (record { type_ = Calls.request_consume; address = a }) went_well

abbrev waiting_call : ConsumeCallData
waiting_call = record new_consume_call { status = process }

-- The constructor makes a call object that waits for the next request.
abbrev pub with_new : World → World
with_new w = record w {
  consume_calls = w.consume_calls ++ waiting_call ∷ [];
  actions = w.actions ++ request_consume (length w.consume_calls) ∷ [];
}

pub new_lem : (w : World) → new w ≡ ok (length w.consume_calls, with_new w)
unfolding new
new_lem w = ground (
  arith,
  get_elem?-append_new w.consume_calls new_consume_call,
  set-append_new w.consume_calls new_consume_call waiting_call,
)

-- The call with the members that `process` copies from the request.
abbrev pub taken : ConsumeCallData → ConsumeCallData
taken d = record d { topic = d.request.topic; group = d.request.consumer_group }

abbrev unit_for : World → ℕ → ConsumeCallData → ConsumeMsgUnit
unit_for w a d = new_consume_msg_unit w.now a d.request.topic d.request.consumer_group

-- The state after `process`.
abbrev pub pooled : World → ℕ → ConsumeCallData → World
pooled w a d = record (with_new w) {
  consume_calls = set (with_new w).consume_calls a (taken d);
  consume_msg_units = w.consume_msg_units ++ unit_for w a d ∷ [];
  consume_msg_pool = QueueTs.push w.consume_msg_pool (length w.consume_msg_units);
}

module _ (w : World) (a : ℕ) (d : ConsumeCallData)
    (at_a : get_elem? w.consume_calls a ≡ some d) where
  pub at_new : get_elem? (with_new w).consume_calls a ≡ some d
  at_new = get_elem?-append_old w.consume_calls (waiting_call ∷ []) a d at_a

  pub process_call_alive : d.deleted ≡ false → process_call a w ≡ ok (tt, pooled w a d)
  unfolding process_call
  process_call_alive alive = ground (arith, new_lem w, at_new, alive)

module _ (past : List Step) (w : World) (a : ℕ) (d : ConsumeCallData)
    (at_a : get_elem? w.consume_calls a ≡ some d) (waits : consume_view d ≡ (process, false))
    (first : total (handled Calls.request_consume a) past ≡ 0) (v : IsAlive past w) where
  pub process_call_lem : process_call a w ≡ ok (tt, pooled w a d)
  process_call_lem = process_call_alive w a d at_a (ap (λ s. s.1) waits)

  pub pooled-IsAlive : IsAlive (event a true ∷ past) (pooled w a d)
  unfolding QueueTs.push new_consume_msg_unit
  pooled-IsAlive =
      let x : Action = request_consume (length w.consume_calls) in
      let units = w.consume_msg_units in
      let pool = w.consume_msg_pool.data_queue in
      let s = event a true in
      let t = Calls.request_consume in
      record {
        produces =
            Produces-past w.produce_calls (w.actions ++ x ∷ []) past s (λ i. refl) (λ i. refl)
              (Produces-emit w.produce_calls w.actions past x (λ i. (refl, refl)) (λ i. refl)
                v.produces);
        consumes =
            Fits-begin consume_view t (with_new w).consume_calls (w.actions ++ x ∷ []) past
              (waiting units pool) a d (at_new w a d at_a)
              (Fits-new consume_view t w.consume_calls w.actions past (waiting units pool)
                waiting_call x refl (λ i. (refl, refl)) v.consumes)
              (taken d) s _ waits waits (λ i. refl) first
              (omega (
                arith,
                length-append w.consume_calls (waiting_call ∷ []),
                lt_of_get_elem? w.consume_calls a d at_a,
              ))
              (λ i. waiting-new units (unit_for w a d) pool i v.in_range);
        acks =
            Acks-past w.consume_ack_calls (w.actions ++ x ∷ []) past s (λ i. refl)
              (Acks-emit w.consume_ack_calls w.actions past x (λ i. (refl, refl)) v.acks);
        in_range = InRange-new units (unit_for w a d) pool v.in_range;
        settled =
            All-mono _ _ w.id_unit_map.the_map
              (λ e k. append-IsSettled units (unit_for w a d) e.1 k) v.settled;
        sound = v.sound;
      }

-- The state in which a call object is deleted.
abbrev pub ended : World → Hidden → MapTs Bytes ℕ → ℕ → ConsumeCallData → World
ended w h ids a c = record (with_hidden w h) {
  id_unit_map = ids;
  consume_calls = set w.consume_calls a (record c { status = finish; deleted = true });
}

pub ended-IsAlive :
    (past : List Step) (w : World) (h : Hidden) (ids : MapTs Bytes ℕ) (a : ℕ) (c : ConsumeCallData)
    (went_well : Bool)
    → get_elem? w.consume_calls a ≡ some c
    → consume_view c ≡ (finish, false)
    → IsSound h
    → AllValues (IsSettled w.consume_msg_units) ids.the_map
    → IsAlive past w
    → IsAlive (event a went_well ∷ past) (ended w h ids a c)
ended-IsAlive past w h ids a c went_well at_a e sound settled v = record {
  produces =
      Produces-past w.produce_calls w.actions past (event a went_well) (λ i. refl) (λ i. refl)
        v.produces;
  consumes =
      Fits-end consume_view Calls.request_consume w.consume_calls w.actions past
        (waiting w.consume_msg_units w.consume_msg_pool.data_queue) a c at_a v.consumes
        (record c { status = finish; deleted = true }) (event a went_well) e refl (λ i. refl);
  acks = Acks-past w.consume_ack_calls w.actions past (event a went_well) (λ i. refl) v.acks;
  in_range = v.in_range;
  settled = settled;
  sound = sound;
}
