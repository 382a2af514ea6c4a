-- ===== src/System/Alive/Callbacks.antt =====
-- What comes for the calls that send a message: their events, their requests, and the callbacks of
-- the messages.
use rocketmq_proxy.Prelude.{
  ℕ, ◌+◌, ◌<◌, true, false, ltb, List, [], ◌∷◌, ◌++◌, some, Bytes, bytes_less, total, ap, get_elem?,
  set, arith, ◌≡◌, refl, inl, inr, Bool-cases, get_elem?-set_self, set-set,
}
use rocketmq_proxy.QueueTs
use rocketmq_proxy.Broker.{Broker}
use rocketmq_proxy.Proto.{ProduceRequest}
use rocketmq_proxy.World.{World, process, finish, ProduceCallData, finish_produce}
use rocketmq_proxy.Worker.{write_log}
use rocketmq_proxy.Calls
use rocketmq_proxy.Calls.{RequestType, response_success}
use rocketmq_proxy.Calls.Produce.{
  proceed, cancel, del, on_success, on_failure, proxy_logger_type_produce,
  rocketmq_proxy_produce_max_retry_count,
}
use rocketmq_proxy.Calls.Produce.Branches.{failed, finished_with, fail_with_lem}
use rocketmq_proxy.System.{Step, receives_produce, receive_produce, succeeds, fails}
use rocketmq_proxy.System.Contract.{sent, answered, requested, MayCome, Awaits}
use rocketmq_proxy.System.Alive.Found.{find_event, find_answer, find_request, find_waiting}
use rocketmq_proxy.System.Alive.Quiet.{Hidden, hidden, with_hidden, Starts}
use rocketmq_proxy.System.Alive.Kinds.{produce_view, owed}
use rocketmq_proxy.System.Alive.Invariant.{IsAlive, past-IsAlive, Runs, Runs-ran, Leaves}
use rocketmq_proxy.System.Alive.Sends.{Produces-edit, Produces-settle}
use rocketmq_proxy.System.Alive.SendEvents.{
  event, ended, ended-IsAlive, built_one, process_call-Runs, request-Turns, retry-Turns,
}

-- A change of a call object that no count sees.
edited-IsAlive :
    (past : List Step) (w : World) (a : ℕ) (d d' : ProduceCallData)
    → get_elem? w.produce_calls a ≡ some d
    → produce_view d ≡ (process, false)
    → produce_view d' ≡ produce_view d
    → IsAlive past w
    → IsAlive past (record w { produce_calls = set w.produce_calls a d' })
edited-IsAlive past w a d d' at_a waits same v = record {
  produces = Produces-edit w.produce_calls w.actions past v.produces a d at_a waits d' same;
  consumes = v.consumes;
  acks = v.acks;
  in_range = v.in_range;
  settled = v.settled;
  sound = v.sound;
}

module _ (past : List Step) (w : World) (a : ℕ) (v : IsAlive past w) where
  -- The event of a request sends its message or refuses it, and that of an answer deletes the
  -- object.
  pub proceed-Runs :
      (b : Broker)
      → Starts b
      → MayCome Calls.request_produce a true past w
      → Runs (proceed b a) w (Leaves (IsAlive (event a true ∷ past)))
  unfolding proceed del
  proceed-Runs b starts may =
      elim (find_event produce_view Calls.request_produce w.produce_calls w.actions past
        (owed w.actions past) a v.produces.0 may) [
          | inl ((d, at_a, e), first) ↦
              let waits : d.status ≡ process = ap (λ s. s.0) e in
              let alive : d.deleted ≡ false = ap (λ s. s.1) e in
              let rest =
                process_call-Runs past w a d at_a e v b (event a true) starts (λ i. refl)
                  (λ i. refl) (request-Turns past w a d at_a e v first) in
              Runs-ran _ w rest.state tt _ (ground (arith, at_a, waits, alive, rest.ran)) rest.holds
          | inr (d, at_a, e) ↦
              let over : d.status ≡ finish = ap (λ s. s.0) e in
              let alive : d.deleted ≡ false = ap (λ s. s.1) e in
              Runs-ran _ w (ended w a d) tt _ (ground (arith, at_a, over, alive))
                (ended-IsAlive past w a d true at_a e v)
        ]

  pub cancel-Runs :
      MayCome Calls.request_produce a false past w
      → Runs (cancel a) w (Leaves (IsAlive (event a false ∷ past)))
  unfolding cancel del
  cancel-Runs (requested, may) =
      let (d, at_a, e) =
        find_answer produce_view Calls.request_produce w.produce_calls w.actions past
          (owed w.actions past) a v.produces.0 requested may in
      let alive : d.deleted ≡ false = ap (λ s. s.1) e in
      let d' : ProduceCallData = record d { status = finish } in
      Runs-ran _ w (ended w a d) tt _
        (ground (
          arith,
          at_a,
          alive,
          get_elem?-set_self w.produce_calls a d' d at_a,
          set-set w.produce_calls a d' (record d { status = finish; deleted = true }),
        ))
        (ended-IsAlive past w a d false at_a e v)

  -- A client's request goes into an object that awaits it.
  pub receive_produce-Runs :
      (r : ProduceRequest)
      → Awaits Calls.request_produce a past w
      → Runs (receive_produce a r) w (Leaves (IsAlive (receives_produce a r ∷ past)))
  unfolding receive_produce
  receive_produce-Runs r awaits =
      let (d, at_a, e) =
        find_request produce_view Calls.request_produce w.produce_calls w.actions past
          (owed w.actions past) a v.produces.0 awaits in
      let alive : d.deleted ≡ false = ap (λ s. s.1) e in
      let d' : ProduceCallData = record d { request = r } in
      Runs-ran _ w (record w { produce_calls = set w.produce_calls a d' }) tt _
        (ground (arith, at_a, alive))
        (past-IsAlive past (record w { produce_calls = set w.produce_calls a d' })
          (receives_produce a r) (λ t i. refl) (λ i. refl)
          (edited-IsAlive past w a d d' at_a e refl v))

  -- The call object whose message has been sent.
  sender :
      total (answered a) past < total (sent a) w.actions
      → (d : ProduceCallData) × (get_elem? w.produce_calls a ≡ some d)
        × (produce_view d ≡ (process, false))
  sender waited_for =
      (find_waiting produce_view Calls.request_produce w.produce_calls w.actions past
        (owed w.actions past) a v.produces.0 (omega arith)).0

  -- The callback of a message that was sent: the client gets its id.
  pub on_success-Runs :
      (id : Bytes)
      → total (answered a) past < total (sent a) w.actions
      → Runs (on_success a id) w (Leaves (IsAlive (succeeds a id ∷ past)))
  unfolding on_success write_log
  on_success-Runs id waited_for =
      let (d, at_a, e) = sender waited_for in
      let alive : d.deleted ≡ false = ap (λ s. s.1) e in
      let d' : ProduceCallData = record d {
        reply = record { code = response_success; msg_id = id; err_msg = d.reply.err_msg };
        status = finish;
      } in
      let s = succeeds a id in
      let h : Hidden = record (hidden w) {
        log_queue = QueueTs.push w.log_queue (record {
          type = proxy_logger_type_produce;
          msg_id = id;
          topic = d.request.topic;
          group = d.request.group;
          body = d.request.body;
          delay_level = d.request.delay_level;
          status = 0;
        });
      } in
      Runs-ran _ w
        (record (with_hidden w h) {
          produce_calls = set w.produce_calls a d';
          actions = w.actions ++ finish_produce a d'.reply ∷ [];
        })
        tt _ (ground (arith, at_a, alive))
        (built_one past w v s (λ i. refl) (λ i. refl) h (set w.produce_calls a d')
          (finish_produce a d'.reply) (λ i. (refl, refl, refl, refl))
          (record { batches = v.sound.batches; known = v.sound.known })
          (Produces-settle w.produce_calls w.actions past v.produces a d at_a e s (λ i. refl)
            (λ i. refl) waited_for d' d'.reply (ap (λ x. (finish, x.1)) e)))

  -- The callback of a message that was not: it is sent again, or the client gets the error.
  pub on_failure-Runs :
      (b : Broker) (text : Bytes)
      → Starts b
      → total (answered a) past < total (sent a) w.actions
      → Runs (on_failure b a text) w (Leaves (IsAlive (fails a text ∷ past)))
  unfolding on_failure
  on_failure-Runs b text starts waited_for =
      let (d, at_a, e) = sender waited_for in
      let alive : d.deleted ≡ false = ap (λ s. s.1) e in
      let d' : ProduceCallData = record d { retry_count = d.retry_count + 1 } in
      let w' : World = record w { produce_calls = set w.produce_calls a d' } in
      let v' = edited-IsAlive past w a d d' at_a e refl v in
      let at_a' = get_elem?-set_self w.produce_calls a d' d at_a in
      elim (Bool-cases (ltb rocketmq_proxy_produce_max_retry_count (d.retry_count + 1))) [
        | inl too_often ↦
            let d'' = failed d' text in
            Runs-ran _ w (finished_with w' a d' text) tt _
              (ground (arith, at_a, alive, too_often, fail_with_lem w' a d' text at_a' alive))
              (built_one past w' v' (fails a text) (λ i. refl) (λ i. refl) (hidden w)
                (set w'.produce_calls a d'') (finish_produce a d''.reply)
                (λ i. (refl, refl, refl, refl)) v.sound
                (Produces-settle w'.produce_calls w.actions past v'.produces a d' at_a' e
                  (fails a text) (λ i. refl) (λ i. refl) waited_for d'' d''.reply
                  (ap (λ x. (finish, x.1)) e)))
        | inr again ↦
            let rest =
              process_call-Runs past w' a d' at_a' e v' b (fails a text) starts (λ i. refl)
                (λ i. refl) (retry-Turns past w' a d' at_a' e v' text waited_for) in
            Runs-ran _ w rest.state tt _ (ground (arith, at_a, alive, again, rest.ran)) rest.holds
      ]
