-- ===== src/System/Alive/Histories.antt =====
-- What holds of the call objects in every history in which gRPC and the client library keep their
-- promises.
use mathlib.Core.Path.{subst}
use rocketmq_proxy.Prelude.{
  ℕ, ◌≤◌, Bool, true, false, List, [], ◌∷◌, Option, none, some, Bytes, total, get_elem?, arith, ◌≡◌,
  refl, get_elem?-lt,
}
use rocketmq_proxy.Broker.{Broker}
use rocketmq_proxy.World.{
  World, ok, CallStatus, process, finish, ProduceCallData, ConsumeCallData, ConsumeAckCallData,
}
use rocketmq_proxy.Calls.{RequestType, request_produce, request_consume, request_consume_ack}
use rocketmq_proxy.Server.{handle_rpcs}
use rocketmq_proxy.System.{Step, step, steps, history}
use rocketmq_proxy.System.Contract.{
  Obeys, OnOk, Promised, after, Awaits, requested, finished, handled,
}
use rocketmq_proxy.System.Alive.Counts
use rocketmq_proxy.System.Alive.Counts.{IsCall, Fits}
use rocketmq_proxy.System.Alive.Changes.{fit_at}
use rocketmq_proxy.System.Alive.Quiet.{Starts}
use rocketmq_proxy.System.Alive.Kinds.{produce_view, consume_view, ack_view}
use rocketmq_proxy.System.Alive.Invariant.{IsAlive, Runs, Runs-ran, Runs-bind, Leaves}
use rocketmq_proxy.System.Alive.Steps.{step-Runs}
use rocketmq_proxy.System.Alive.Started.{configured, started, handle_rpcs_lem, start-IsAlive}

steps-Runs :
    (b : Broker) (past : List Step) (w : World) (ss : List Step)
    → Starts b
    → Obeys b past w ss
    → IsAlive past w
    → Runs (steps b ss) w (Leaves (IsAlive (after past ss)))
unfolding steps Obeys
steps-Runs b past w [] starts obeys v = Runs-ran _ w w tt _ refl v
steps-Runs b past w (s ∷ ss) starts obeys v =
    let done = step-Runs past w b s starts obeys.0 v in
    let obeys' : Obeys b (s ∷ past) done.state ss =
      subst (OnOk (λ w'. Obeys b (s ∷ past) w' ss)) done.ran obeys.1 in
    Runs-bind (step b s) (λ _. steps b ss) w done.state tt _ done.ran
      (steps-Runs b (s ∷ past) done.state ss starts obeys' done.holds)

history-Runs :
    (b : Broker) (now : ℕ) (name_server access_key secret_key channel : Bytes) (ss : List Step)
    → Starts b
    → Promised b ss (configured now name_server access_key secret_key channel)
    → Runs
        (history b ss)
        (configured now name_server access_key secret_key channel)
        (Leaves (IsAlive (after [] ss)))
unfolding history
history-Runs b now name_server access_key secret_key channel ss starts promised =
    let w = configured now name_server access_key secret_key channel in
    let ran = handle_rpcs_lem b w in
    Runs-bind (handle_rpcs b []) (λ _. steps b ss) w (started w) tt _ ran
      (steps-Runs b [] (started w) ss starts (subst (OnOk (λ w'. Obeys b [] w' ss)) ran promised)
        (start-IsAlive now name_server access_key secret_key channel))

-- For a server that begins a history, where the broker's client library starts every producer and
-- every consumer and brings at most one callback for each message that was sent; where gRPC brings
-- at most one event for each operation that a call object has begun, a request only to an object
-- that awaits one, and no event fails but that of an answer; and where the broker's callbacks and
-- the thread that gives batches up belong to consumers that there are: in whatever order these steps
-- come, the history runs to its end. No null pointer and no pointer to a deleted object is followed,
-- and no assertion fails.
pub never_faults :
    (b : Broker) (now : ℕ) (name_server access_key secret_key channel : Bytes) (ss : List Step)
    → Starts b
    → Promised b ss (configured now name_server access_key secret_key channel)
    → (w' : World) × (history b ss (configured now name_server access_key secret_key channel)
        ≡ ok (tt, w'))
never_faults b now name_server access_key secret_key channel ss starts promised =
    let r = history-Runs b now name_server access_key secret_key channel ss starts promised in
    (r.state, r.ran)

module _ (b : Broker) (now : ℕ) (name_server access_key secret_key channel : Bytes) (ss : List Step)
    (w' : World) (starts : Starts b)
    (promised : Promised b ss (configured now name_server access_key secret_key channel))
    (went : history b ss (configured now name_server access_key secret_key channel)
      ≡ ok (tt, w')) where
  alive : IsAlive (after [] ss) w'
  alive =
      let r = history-Runs b now name_server access_key secret_key channel ss starts promised in
      let same : r.state ≡ w' = cc (r.ran) in subst (IsAlive (after [] ss)) same r.holds

  at_most_once :
      {C : Type 0} (view : C → CallStatus × Bool) (t : RequestType) (cs : List C) (q : ℕ → ℕ)
      (a : ℕ)
      → Fits view t cs w'.actions (after [] ss) q
      → (total (requested t a) w'.actions ≤ 1)
        × (total (finished t a) w'.actions ≤ total (requested t a) w'.actions)
        × (total (finished t a) w'.actions ≤ total (handled t a) (after [] ss))
  at_most_once view t cs q a f = by_view (Counts.seen view (get_elem? cs a)) (f.fit a)
    where
      by_view :
          (o : Option (CallStatus × Bool))
          → IsCall o (Counts.tally t w'.actions (after [] ss) q a)
          → (total (requested t a) w'.actions ≤ 1)
            × (total (finished t a) w'.actions ≤ total (requested t a) w'.actions)
            × (total (finished t a) w'.actions ≤ total (handled t a) (after [] ss))
      by_view none h = omega arith
      by_view (some (CallStatus.create, x)) h = absurd h
      by_view (some (process, x)) h =
          let asked = h.1 in let given = h.2 in (omega arith, omega arith, omega arith)
      by_view (some (finish, false)) h = omega arith
      by_view (some (finish, true)) h = omega arith

  -- In every history from the start of the server in which the library starts all producers and
  -- consumers, and gRPC and the library keep their promises (System/Contract): each call object asks
  -- for a request at most once, and answers it at most once, and only when the request has come.
  pub answered_once :
      (t : RequestType) (a : ℕ)
      → (total (requested t a) w'.actions ≤ 1)
        × (total (finished t a) w'.actions ≤ total (requested t a) w'.actions)
        × (total (finished t a) w'.actions ≤ total (handled t a) (after [] ss))
  answered_once request_produce a = at_most_once _ _ _ _ a alive.produces.0
  answered_once request_consume a = at_most_once _ _ _ _ a alive.consumes
  answered_once request_consume_ack a = at_most_once _ _ _ _ a alive.acks

  -- The last object of a kind.
  last-Awaits :
      {C : Type 0} (view : C → CallStatus × Bool) (t : RequestType) (cs : List C) (q : ℕ → ℕ)
      → Fits view t cs w'.actions (after [] ss) q
      → (n : ℕ) × (c : C) × (get_elem? cs n ≡ some c)
        × (view c ≡ (process, false))
        × Awaits t n (after [] ss) w'
  last-Awaits {C = C} view t cs q f =
      let (n, size, none_yet) = f.last in
      let (c, at_n) = get_elem?-lt cs n (omega arith) in
      by_view n c (view c) at_n refl none_yet
        (fit_at view t cs w'.actions (after [] ss) q n c at_n f (view c) refl)
    where
      by_view :
          (n : ℕ) (c : C) (s : CallStatus × Bool)
          → get_elem? cs n ≡ some c
          → view c ≡ s
          → total (handled t n) (after [] ss) ≡ 0
          → IsCall (some s) (Counts.tally t w'.actions (after [] ss) q n)
          → (n : ℕ) × (c : C) × (get_elem? cs n ≡ some c)
            × (view c ≡ (process, false))
            × Awaits t n (after [] ss) w'
      by_view n c (CallStatus.create, x) at_n e z h = absurd h
      by_view n c (process, true) at_n e z h = absurd (cc)
      by_view n c (process, false) at_n e z h = (n, c, at_n, e, omega arith)
      by_view n c (finish, false) at_n e z h = absurd (omega arith)
      by_view n c (finish, true) at_n e z h = absurd (omega arith)

  -- In every history from the start of the server in which the library starts all producers and
  -- consumers, and gRPC and the library keep their promises (System/Contract): the server still
  -- listens. For each kind of call there is an object that has asked for a request, and whose
  -- request has not come; it is not deleted.
  pub always_listens :
      ((n : ℕ) × (c : ProduceCallData) × (get_elem? w'.produce_calls n ≡ some c)
        × (produce_view c ≡ (process, false))
        × Awaits request_produce n (after [] ss) w')
      × ((n : ℕ) × (c : ConsumeCallData) × (get_elem? w'.consume_calls n ≡ some c)
          × (consume_view c ≡ (process, false))
          × Awaits request_consume n (after [] ss) w')
      × ((n : ℕ) × (c : ConsumeAckCallData) × (get_elem? w'.consume_ack_calls n ≡ some c)
          × (ack_view c ≡ (process, false))
          × Awaits request_consume_ack n (after [] ss) w')
  always_listens = (
    last-Awaits _ _ _ _ alive.produces.0,
    last-Awaits _ _ _ _ alive.consumes,
    last-Awaits _ _ _ _ alive.acks,
  )
