-- ===== src/System/Contract.antt =====
-- What gRPC and the client library promise of the events that they bring, as a condition on the
-- steps of a history: each operation that a call object has begun has at most one event, and each
-- message that was sent has at most one callback.
use rocketmq_proxy.Prelude.{
  ℕ, ◌+◌, ◌≤◌, ◌<◌, Bool, true, false, List, [], ◌∷◌, if◌then◌else◌, ◌==◌, total, length,
}
use rocketmq_proxy.Broker.{Broker}
use rocketmq_proxy.World
use rocketmq_proxy.World.{
  World, Result, ok, fault, Action, finish_produce, finish_consume, finish_consume_ack, send,
}
use rocketmq_proxy.Calls.{RequestType, request_produce, request_consume, request_consume_ack}
use rocketmq_proxy.Server.{handle_rpcs}
use rocketmq_proxy.System.{
  Step, receives_produce, receives_consume, receives_ack, handles, matches, arrives, departs,
  succeeds, fails, gives_up, erases, passes, step,
}

abbrev pub one : ℕ → ℕ → ℕ
one a b = if a == b then 1 else 0

-- Whether an action asks for a call of a type at an address, ends it, or sends its message.
abbrev pub requested : RequestType → ℕ → Action → ℕ
requested request_produce a (World.request_produce b) = one a b
requested request_consume a (World.request_consume b) = one a b
requested request_consume_ack a (World.request_consume_ack b) = one a b
requested _ a _ = 0

abbrev pub finished : RequestType → ℕ → Action → ℕ
finished request_produce a (finish_produce b r) = one a b
finished request_consume a (finish_consume b r) = one a b
finished request_consume_ack a (finish_consume_ack b r) = one a b
finished _ a _ = 0

abbrev pub sent : ℕ → Action → ℕ
sent a (send b msg) = one a b
sent a _ = 0

abbrev pub same_type : RequestType → RequestType → Bool
same_type request_produce request_produce = true
same_type request_consume request_consume = true
same_type request_consume_ack request_consume_ack = true
same_type _ _ = false

-- Whether a step is the event of a call object, or the callback of its message.
abbrev pub handled : RequestType → ℕ → Step → ℕ
handled t a (handles tag went_well) = if same_type t tag.type_ then one a tag.address else 0
handled t a _ = 0

abbrev pub answered : ℕ → Step → ℕ
answered a (succeeds b id) = one a b
answered a (fails b text) = one a b
answered a _ = 0

-- The request of a call object has been asked for, and its event has not come.
abbrev pub Awaits : RequestType → ℕ → List Step → World → Type 0
Awaits t a past w = total (handled t a) past < total (requested t a) w.actions

-- Fewer events of a call object have come than it has begun operations. Only the answer to a client
-- can fail: the first event, which is a request, goes well as long as the server runs.
abbrev pub MayCome : RequestType → ℕ → Bool → List Step → World → Type 0
MayCome t a true past w =
    total (handled t a) past < total (requested t a) w.actions + total (finished t a) w.actions
MayCome t a false past w =
    (total (requested t a) w.actions ≤ total (handled t a) past)
    × (total (handled t a) past < total (requested t a) w.actions + total (finished t a) w.actions)

-- A step that can come after the steps of `past`, the last of them first. A broker's callback
-- belongs to a consumer that there is.
abbrev pub Allowed : List Step → World → Step → Type 0
Allowed past w (receives_produce a r) = Awaits request_produce a past w
Allowed past w (receives_consume a r) = Awaits request_consume a past w
Allowed past w (receives_ack a r) = Awaits request_consume_ack a past w
Allowed past w (handles tag went_well) = MayCome tag.type_ tag.address went_well past w
Allowed past w matches = Unit
Allowed past w (arrives k a group msgs) = k < length w.consumer_units
Allowed past w (departs k a) = k < length w.consumer_units
Allowed past w (succeeds a id) = total (answered a) past < total (sent a) w.actions
Allowed past w (fails a text) = total (answered a) past < total (sent a) w.actions
Allowed past w (gives_up k) = k < length w.consumer_units
Allowed past w (erases key) = Unit
Allowed past w (passes n) = Unit

-- A predicate of the state after a step; there is none after a fault.
abbrev pub OnOk : (World → Type 0) → Result (Unit {0} × World) → Type 0
OnOk P (fault e) = Unit
OnOk P (ok (a, w)) = P w

-- Every step of a list is allowed when it comes.
unfoldable pub Obeys : Broker → List Step → World → List Step → Type 0
Obeys b past w [] = Unit
Obeys b past w (s ∷ ss) = Allowed past w s × OnOk (λ w'. Obeys b (s ∷ past) w' ss) (step b s w)

-- The steps of `past` and of a list that follows them, the last of them first.
abbrev pub after : List Step → List Step → List Step
after past [] = past
after past (s ∷ ss) = after (s ∷ past) ss

-- The same from the start of the server.
abbrev pub Promised : Broker → List Step → World → Type 0
Promised b ss w = OnOk (λ w'. Obeys b [] w' ss) (handle_rpcs b [] w)
