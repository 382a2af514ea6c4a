-- ===== src/System/Alive/AckEvents.antt =====
-- The events of the acknowledge calls, and their requests.
use rocketmq_proxy.Prelude.{
  ℕ, Bool, true, false, List, ◌∷◌, some, bytes_less, ap, get_elem?, set, arith, ◌≡◌, refl, inl, inr,
  get_elem?-set_self, set-set,
}
use rocketmq_proxy.StdMap.Values.{erase-AllValues}
use rocketmq_proxy.MapTs
use rocketmq_proxy.Broker.{Broker}
use rocketmq_proxy.Proto.{ConsumeAckRequest}
use rocketmq_proxy.World.{World, process, finish, ConsumeAckCallData}
use rocketmq_proxy.Calls
use rocketmq_proxy.Calls.ConsumeAck.{proceed, cancel, del}
use rocketmq_proxy.System.{Step, receives_ack, receive_ack}
use rocketmq_proxy.System.Contract.{MayCome, Awaits}
use rocketmq_proxy.System.Alive.Changes.{Fits-end, Fits-edit}
use rocketmq_proxy.System.Alive.Found.{find_event, find_answer, find_request}
use rocketmq_proxy.System.Alive.Pool.{waiting}
use rocketmq_proxy.System.Alive.Quiet.{Starts}
use rocketmq_proxy.System.Alive.Kinds.{ack_view, nothing, Produces-past, Consumes-past, Acks-past}
use rocketmq_proxy.System.Alive.Invariant.{IsAlive, Runs, Runs-ran, Leaves}
use rocketmq_proxy.System.Alive.Acks.{process_call-Runs}
use rocketmq_proxy.System.Alive.AckCounts.{event}

-- The state in which a call object is deleted, and the id of its message forgotten.
abbrev ended : World → ℕ → ConsumeAckCallData → World
ended w a c = record w {
  id_unit_map = MapTs.erase w.id_unit_map c.msg_id;
  consume_ack_calls = set w.consume_ack_calls a (record c { status = finish; deleted = true });
}

ended-IsAlive :
    (past : List Step) (w : World) (a : ℕ) (c : ConsumeAckCallData) (went_well : Bool)
    → get_elem? w.consume_ack_calls a ≡ some c
    → ack_view c ≡ (finish, false)
    → IsAlive past w
    → IsAlive (event a went_well ∷ past) (ended w a c)
unfolding MapTs.erase
ended-IsAlive past w a c went_well at_a e v = record {
  produces =
      Produces-past w.produce_calls w.actions past (event a went_well) (λ i. refl) (λ i. refl)
        v.produces;
  consumes =
      Consumes-past w.consume_calls w.actions past
        (waiting w.consume_msg_units w.consume_msg_pool.data_queue) (event a went_well) (λ i. refl)
        v.consumes;
  acks =
      Fits-end ack_view Calls.request_consume_ack w.consume_ack_calls w.actions past nothing a c
        at_a v.acks (record c { status = finish; deleted = true }) (event a went_well) e refl
        (λ i. refl);
  in_range = v.in_range;
  settled = erase-AllValues _ c.msg_id w.id_unit_map.the_map v.settled;
  sound = v.sound;
}

module _ (past : List Step) (w : World) (a : ℕ) (v : IsAlive past w) where
  -- The event of a request is answered, and that of an answer deletes the object.
  pub proceed-Runs :
      (b : Broker)
      → Starts b
      → MayCome Calls.request_consume_ack a true past w
      → Runs (proceed b a) w (Leaves (IsAlive (event a true ∷ past)))
  unfolding proceed del
  proceed-Runs b starts may =
      elim (find_event ack_view Calls.request_consume_ack w.consume_ack_calls w.actions past nothing
        a v.acks may) [
          | inl ((c, at_a, e), first) ↦
              let waits : c.status ≡ process = ap (λ s. s.0) e in
              let alive : c.deleted ≡ false = ap (λ s. s.1) e in
              let rest = process_call-Runs past w a c at_a e first v b starts in
              Runs-ran _ w rest.state tt _ (ground (arith, at_a, waits, alive, rest.ran)) rest.holds
          | inr (c, at_a, e) ↦
              let over : c.status ≡ finish = ap (λ s. s.0) e in
              let alive : c.deleted ≡ false = ap (λ s. s.1) e in
              Runs-ran _ w (ended w a c) tt _ (ground (arith, at_a, over, alive))
                (ended-IsAlive past w a c true at_a e v)
        ]

  pub cancel-Runs :
      MayCome Calls.request_consume_ack a false past w
      → Runs (cancel a) w (Leaves (IsAlive (event a false ∷ past)))
  unfolding cancel
  cancel-Runs (requested, may) =
      let (c, at_a, e) =
        find_answer ack_view Calls.request_consume_ack w.consume_ack_calls w.actions past nothing a
          v.acks requested may in
      let alive : c.deleted ≡ false = ap (λ s. s.1) e in
      let c' : ConsumeAckCallData = record c { status = finish } in
      Runs-ran _ w (ended w a c) tt _
        (ground (
          arith,
          at_a,
          alive,
          get_elem?-set_self w.consume_ack_calls a c' c at_a,
          set-set w.consume_ack_calls a c' (record c { status = finish; deleted = true }),
        ))
        (ended-IsAlive past w a c false at_a e v)

  -- A client's request goes into an object that awaits it.
  pub receive_ack-Runs :
      (r : ConsumeAckRequest)
      → Awaits Calls.request_consume_ack a past w
      → Runs (receive_ack a r) w (Leaves (IsAlive (receives_ack a r ∷ past)))
  unfolding receive_ack
  receive_ack-Runs r awaits =
      let (c, at_a, e) =
        find_request ack_view Calls.request_consume_ack w.consume_ack_calls w.actions past nothing a
          v.acks awaits in
      let alive : c.deleted ≡ false = ap (λ s. s.1) e in
      let c' : ConsumeAckCallData = record c { request = r } in
      let s = receives_ack a r in
      Runs-ran _ w (record w { consume_ack_calls = set w.consume_ack_calls a c' }) tt _
        (ground (arith, at_a, alive))
        (record {
          produces =
              Produces-past w.produce_calls w.actions past s (λ i. refl) (λ i. refl) v.produces;
          consumes =
              Consumes-past w.consume_calls w.actions past
                (waiting w.consume_msg_units w.consume_msg_pool.data_queue) s (λ i. refl)
                v.consumes;
          acks =
              Acks-past (set w.consume_ack_calls a c') w.actions past s (λ i. refl)
                (Fits-edit ack_view Calls.request_consume_ack w.consume_ack_calls w.actions past
                  nothing a c at_a v.acks c' refl);
          in_range = v.in_range;
          settled = v.settled;
          sound = v.sound;
        })
