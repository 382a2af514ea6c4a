-- ===== src/System/Alive/Acks.antt =====
-- The events of the acknowledge calls find their call objects.
use rocketmq_proxy.System.Alive.AckCounts.{not_found, event, Acks-answer}
use rocketmq_proxy.Prelude.{
  All-get, ℕ, ◌<◌, Bool, true, false, List, [], ◌∷◌, ◌++◌, Option, some, Bytes, bytes, bytes_less,
  total, sym, ap, length-set, All-mono, length, get_elem?, set, arith, ◌≡◌, refl, inl, inr,
  Option-cases, get_elem?-set_self, get_elem?-append_old, get_elem?-lt,
}
use rocketmq_proxy.StdMap.Values.{AllValues, find-AllValues}
use rocketmq_proxy.QueueTs
use rocketmq_proxy.MapTs
use rocketmq_proxy.Message.{consume_ack}
use rocketmq_proxy.Consumer.{set_msg_ack}
use rocketmq_proxy.Consumer.History.{unit_step, unit_step-AllValid, acknowledges, UnitIsValid}
use rocketmq_proxy.Broker.{Broker}
use rocketmq_proxy.World.{
  World, M, read, follow, deref, ◌>>=◌, ◌>>◌, CallStatus, process, finish, ConsumeAckCallData,
  ConsumeMsgUnit, Action, request_consume_ack, finish_consume_ack,
}
use rocketmq_proxy.Worker.{get_consumer, reset_consumer_active, write_log, set_consumer_unit}
use rocketmq_proxy.Calls
use rocketmq_proxy.Calls.ConsumeAck.{process_call, reply_ack, get_call, put_call, new}
use rocketmq_proxy.Calls.ConsumeAck.Branches.{with_new, new_lem, taken, answered, ack_log}
use rocketmq_proxy.Calls.{response_error, response_success}
use rocketmq_proxy.System.{Step}
use rocketmq_proxy.System.Contract.{handled}
use rocketmq_proxy.System.Alive.Pool.{
  waiting, waiting-set, InRange, InRange-same, IsSettled, set-IsSettled,
}
use rocketmq_proxy.System.Alive.Quiet.{
  Hidden, with_hidden, IsSound, Starts, Finds, get_consumer-Quiet, reset_consumer_active-Quiet,
  with_unit, with_unit-IsSound, Nothing,
}
use rocketmq_proxy.System.Alive.Kinds.{
  ack_view, Produces-emit, Consumes-emit, Produces-past, Consumes-past, Consumes-waiting,
}
use rocketmq_proxy.System.Alive.Invariant.{IsAlive, Runs, Runs-bind, Quiet-bind, Runs-ran, Leaves}

module _ (past : List Step) (w : World) (a : ℕ) (d : ConsumeAckCallData)
    (at_a : get_elem? w.consume_ack_calls a ≡ some d) (waits : ack_view d ≡ (process, false))
    (first : total (handled Calls.request_consume_ack a) past ≡ 0) (v : IsAlive past w) where
  -- The state in which the call has copied its request.
  abbrev copied : World
  copied = record (with_new w) {
    consume_ack_calls = set (with_new w).consume_ack_calls a (taken d);
  }

  abbrev alive : d.deleted ≡ false
  alive = ap (λ s. s.1) waits

  at_new : get_elem? (with_new w).consume_ack_calls a ≡ some d
  at_new = get_elem?-append_old w.consume_ack_calls _ a d at_a

  copied_at : get_elem? copied.consume_ack_calls a ≡ some (taken d)
  copied_at = get_elem?-set_self (with_new w).consume_ack_calls a (taken d) d at_new

  -- The state in which it is answered, for the units that are left and the hidden part.
  abbrev replied : Hidden → List ConsumeMsgUnit → ConsumeAckCallData → World
  replied h units d' = record (with_hidden copied h) {
    consume_msg_units = units;
    consume_ack_calls = set copied.consume_ack_calls a d';
    actions = copied.actions ++ finish_consume_ack a d'.reply ∷ [];
  }

  replied-IsAlive :
      (h : Hidden) (units : List ConsumeMsgUnit) (d' : ConsumeAckCallData)
      → ack_view d' ≡ (finish, false)
      → ((i : ℕ)
          → waiting w.consume_msg_units w.consume_msg_pool.data_queue i
            ≡ waiting units w.consume_msg_pool.data_queue i)
      → InRange units w.consume_msg_pool.data_queue
      → AllValues (IsSettled units) w.id_unit_map.the_map
      → IsSound h
      → IsAlive (event a true ∷ past) (replied h units d')
  replied-IsAlive h units d' e' same in_range settled sound =
      let x : Action = request_consume_ack (length w.consume_ack_calls) in
      let y : Action = finish_consume_ack a d'.reply in
      let acts = w.actions ++ x ∷ [] in
      let pool = w.consume_msg_pool.data_queue in
      record {
        produces =
            Produces-past w.produce_calls (acts ++ y ∷ []) past (event a true) (λ i. refl)
              (λ i. refl)
              (Produces-emit w.produce_calls acts past y (λ i. (refl, refl)) (λ i. refl)
                (Produces-emit w.produce_calls w.actions past x (λ i. (refl, refl)) (λ i. refl)
                  v.produces));
        consumes =
            Consumes-waiting w.consume_calls (acts ++ y ∷ []) (event a true ∷ past)
              (waiting w.consume_msg_units pool) (waiting units pool) same
              (Consumes-past w.consume_calls (acts ++ y ∷ []) past
                (waiting w.consume_msg_units pool) (event a true) (λ i. refl)
                (Consumes-emit w.consume_calls acts past (waiting w.consume_msg_units pool) y
                  (λ i. (refl, refl))
                  (Consumes-emit w.consume_calls w.actions past (waiting w.consume_msg_units pool) x
                    (λ i. (refl, refl)) v.consumes)));
        acks =
            Acks-answer w.consume_ack_calls w.actions past a d (taken d) d' d'.reply at_a waits
              waits e' first v.acks;
        in_range = in_range;
        settled = settled;
        sound = sound;
      }

  is_finished : ◌≡◌ {A = CallStatus × Bool} (finish, d.deleted) (finish, false)
  is_finished = ap (λ s. (finish, s.1)) waits

  abbrev logged : Hidden → Hidden
  logged g = record g { log_queue = QueueTs.push g.log_queue (ack_log d) }

  logged-IsSound : (g : Hidden) → IsSound g → IsSound (logged g)
  logged-IsSound g s = record { batches = s.batches; known = s.known }

  abbrev acked_text : Bytes
  acked_text = bytes "msg ack succ!"

  find_settled :
      (p : ℕ)
      → MapTs.try_get w.id_unit_map d.request.msg_id ≡ some p
      → IsSettled w.consume_msg_units p
  find_settled p known =
      unfold MapTs.try_get in
      find-AllValues _ d.request.msg_id p w.id_unit_map.the_map v.settled known

  -- The answer, whatever the batches know of the message and whether or not its unit is known.
  reply_ack-Runs :
      (h : Hidden) (found : Bool)
      → IsSound h
      → Runs
          (reply_ack a (taken d) found)
          (with_hidden copied h)
          (Leaves (IsAlive (event a true ∷ past)))
  unfolding write_log
  reply_ack-Runs h false sound = record {
    result = tt;
    state = replied h w.consume_msg_units (answered d response_error (not_found d));
    ran = refl;
    holds =
        replied-IsAlive h w.consume_msg_units (answered d response_error (not_found d)) is_finished
          (λ i. refl) v.in_range v.settled sound;
  }
  reply_ack-Runs h true sound = elim (Option-cases (MapTs.try_get w.id_unit_map d.request.msg_id)) [
    | inl unknown ↦ record {
      result = tt;
      state = replied (logged h) w.consume_msg_units (answered d response_success acked_text);
      ran = ground (arith, unknown);
      holds =
          replied-IsAlive (logged h) w.consume_msg_units (answered d response_success acked_text)
            is_finished (λ i. refl) v.in_range v.settled (logged-IsSound h sound);
    }
    | inr (p, known) ↦
        let (u, at_p, over) = find_settled p known in
        let u' : ConsumeMsgUnit = record u { status = consume_ack } in
        let units = set w.consume_msg_units p u' in
        record {
          result = tt;
          state = replied (logged h) units (answered d response_success acked_text);
          ran = ground (arith, known, at_p);
          holds =
              replied-IsAlive (logged h) units (answered d response_success acked_text) is_finished
                (λ i. sym (
                  waiting-set w.consume_msg_units p u u' at_p refl w.consume_msg_pool.data_queue i
                    (inl (ground (arith, over)))))
                (InRange-same w.consume_msg_units units w.consume_msg_pool.data_queue
                  (length-set w.consume_msg_units p u') v.in_range)
                (All-mono _ _ w.id_unit_map.the_map
                  (λ e k. set-IsSettled w.consume_msg_units p e.1 u' refl k) v.settled)
                (logged-IsSound h sound);
        }
  ]

  -- The batches of the consumer at an address get the acknowledgement, and the client its answer.
  abbrev acknowledge : ℕ → M (Unit {0})
  acknowledge k = do
    found ← read (λ w. get_elem? w.consumer_units k)
    u ← follow found
    set_consumer_unit k (set_msg_ack d.request.msg_id d.request.status u).1
    c ← get_call a
    reply_ack a c (set_msg_ack d.request.msg_id d.request.status u).0

  acknowledge-Runs :
      (h : Hidden) (k : ℕ)
      → IsSound h
      → k < length h.consumer_units
      → Runs (acknowledge k) (with_hidden copied h) (Leaves (IsAlive (event a true ∷ past)))
  unfolding unit_step
  acknowledge-Runs h k sound there =
      let (u, at_k) = get_elem?-lt h.consumer_units k there in
      let acked = set_msg_ack d.request.msg_id d.request.status u in
      let rest = reply_ack-Runs (with_unit h k acked.1) acked.0 (
        with_unit-IsSound h k acked.1
          (unit_step-AllValid u (acknowledges d.request.msg_id d.request.status)
            (All-get UnitIsValid h.consumer_units k u sound.batches at_k))
          sound) in
      Runs-ran _ _ rest.state tt _ (ground (arith, at_k, copied_at, alive, rest.ran)) rest.holds

  -- `process` after the request is copied: the consumer is found or started.
  abbrev find_consumer : Broker → M (Unit {0})
  find_consumer b = do
    reset_consumer_active d.request.topic d.request.consumer_group
    o ← get_consumer b d.request.topic d.request.consumer_group
    k ← deref o
    acknowledge k

  find_consumer-Runs :
      (b : Broker)
      → Starts b
      → Runs (find_consumer b) copied (Leaves (IsAlive (event a true ∷ past)))
  find_consumer-Runs b starts =
      let r = d.request in
      let go = λ (o : Option ℕ). deref o >>= acknowledge in
      Quiet-bind (reset_consumer_active r.topic r.consumer_group)
        (λ _. get_consumer b r.topic r.consumer_group >>= go) copied Nothing
        (Leaves (IsAlive (event a true ∷ past)))
        (reset_consumer_active-Quiet copied v.sound r.topic r.consumer_group)
        (λ x h₁ sound₁ _.
          Quiet-bind (get_consumer b r.topic r.consumer_group) go (with_hidden copied h₁) Finds
            (Leaves (IsAlive (event a true ∷ past)))
            (get_consumer-Quiet (with_hidden copied h₁) sound₁ b r.topic r.consumer_group starts)
            (λ o h₂ sound₂ (k, is_k, there). rw is_k (acknowledge-Runs h₂ k sound₂ there)))

  pub process_call-Runs :
      (b : Broker) → Starts b → Runs (process_call b a) w (Leaves (IsAlive (event a true ∷ past)))
  unfolding process_call
  process_call-Runs b starts =
      Runs-bind new _ w (with_new w) (length w.consume_ack_calls) _ (new_lem w) (
        Runs-bind (get_call a) _ (with_new w) (with_new w) d _ (ground (arith, at_new, alive)) (
          Runs-bind (put_call a (taken d)) (λ _. find_consumer b) (with_new w) copied tt _ refl
            (find_consumer-Runs b starts)))
