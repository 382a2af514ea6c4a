-- ===== src/System/Alive/Kinds.antt =====
-- The call objects of each kind against their tallies, and what the other kinds' actions and events
-- leave so.
use rocketmq_proxy.Prelude.{ℕ, ◌-◌, ◌≤◌, Bool, List, [], ◌∷◌, ◌++◌, total, total-append, arith, ◌≡◌}
use rocketmq_proxy.World.{CallStatus, ProduceCallData, ConsumeCallData, ConsumeAckCallData, Action}
use rocketmq_proxy.Calls.{request_produce, request_consume, request_consume_ack}
use rocketmq_proxy.System.{Step}
use rocketmq_proxy.System.Contract.{sent, answered, requested, finished, handled}
use rocketmq_proxy.System.Alive.Counts.{Fits, Fits-past, Fits-waiting, Fits-emit}

abbrev pub produce_view : ProduceCallData → CallStatus × Bool
produce_view c = (c.status, c.deleted)

abbrev pub consume_view : ConsumeCallData → CallStatus × Bool
consume_view c = (c.status, c.deleted)

abbrev pub ack_view : ConsumeAckCallData → CallStatus × Bool
ack_view c = (c.status, c.deleted)

-- The sends of a call object whose callback has not come.
abbrev pub owed : List Action → List Step → ℕ → ℕ
owed acts past a = total (sent a) acts - total (answered a) past

abbrev pub nothing : ℕ → ℕ
nothing a = 0

-- A call that sends a message waits for one callback, and no callback comes twice.
abbrev pub Produces : List ProduceCallData → List Action → List Step → Type 0
Produces cs acts past =
    Fits produce_view request_produce cs acts past (owed acts past)
    × ((a : ℕ) → total (answered a) past ≤ total (sent a) acts)

-- A call that asks for a message waits for as many units as `q` says.
abbrev pub Consumes : List ConsumeCallData → List Action → List Step → (ℕ → ℕ) → Type 0
Consumes = Fits consume_view request_consume

-- An acknowledgement waits for nothing.
abbrev pub Acks : List ConsumeAckCallData → List Action → List Step → Type 0
Acks cs acts past = Fits ack_view request_consume_ack cs acts past nothing

-- An action that is no operation of a call that sends.
pub Produces-emit :
    (cs : List ProduceCallData) (acts : List Action) (past : List Step) (x : Action)
    → ((a : ℕ) → (requested request_produce a x ≡ 0) × (finished request_produce a x ≡ 0))
    → ((a : ℕ) → sent a x ≡ 0)
    → Produces cs acts past
    → Produces cs (acts ++ x ∷ []) past
Produces-emit cs acts past x silent no_send (f, owing) =
    let count = λ (a : ℕ). total-append (sent a) acts (x ∷ []) in
    (
      Fits-waiting produce_view request_produce cs (acts ++ x ∷ []) past (owed acts past)
          (owed (acts ++ x ∷ []) past) (λ a. ground (arith, count a, no_send a))
          (Fits-emit produce_view request_produce cs acts past (owed acts past) x silent f),
      λ a. ground (arith, count a, no_send a, owing a),
    )

pub Consumes-emit :
    (cs : List ConsumeCallData) (acts : List Action) (past : List Step) (q : ℕ → ℕ) (x : Action)
    → ((a : ℕ) → (requested request_consume a x ≡ 0) × (finished request_consume a x ≡ 0))
    → Consumes cs acts past q
    → Consumes cs (acts ++ x ∷ []) past q
Consumes-emit = Fits-emit consume_view request_consume

pub Acks-emit :
    (cs : List ConsumeAckCallData) (acts : List Action) (past : List Step) (x : Action)
    → ((a : ℕ) → (requested request_consume_ack a x ≡ 0) × (finished request_consume_ack a x ≡ 0))
    → Acks cs acts past
    → Acks cs (acts ++ x ∷ []) past
Acks-emit cs acts past = Fits-emit ack_view request_consume_ack cs acts past nothing

-- A step that is no event of a kind.
pub Produces-past :
    (cs : List ProduceCallData) (acts : List Action) (past : List Step) (s : Step)
    → ((a : ℕ) → handled request_produce a s ≡ 0)
    → ((a : ℕ) → answered a s ≡ 0)
    → Produces cs acts past
    → Produces cs acts (s ∷ past)
Produces-past cs acts past s no_event no_answer (f, owing) = (
  Fits-waiting produce_view request_produce cs acts (s ∷ past) (owed acts past)
      (owed acts (s ∷ past)) (λ a. ground (arith, no_answer a))
      (Fits-past produce_view request_produce cs acts past (owed acts past) s no_event f),
  λ a. ground (arith, no_answer a, owing a),
)

pub Consumes-past :
    (cs : List ConsumeCallData) (acts : List Action) (past : List Step) (q : ℕ → ℕ) (s : Step)
    → ((a : ℕ) → handled request_consume a s ≡ 0)
    → Consumes cs acts past q
    → Consumes cs acts (s ∷ past) q
Consumes-past = Fits-past consume_view request_consume

pub Acks-past :
    (cs : List ConsumeAckCallData) (acts : List Action) (past : List Step) (s : Step)
    → ((a : ℕ) → handled request_consume_ack a s ≡ 0)
    → Acks cs acts past
    → Acks cs acts (s ∷ past)
Acks-past cs acts past = Fits-past ack_view request_consume_ack cs acts past nothing

-- What waits is counted another way.
pub Consumes-waiting :
    (cs : List ConsumeCallData) (acts : List Action) (past : List Step) (q q' : ℕ → ℕ)
    → ((a : ℕ) → q a ≡ q' a)
    → Consumes cs acts past q
    → Consumes cs acts past q'
Consumes-waiting = Fits-waiting consume_view request_consume
