-- ===== src/System/Alive/Invariant.antt =====
-- What holds of the whole server between two steps, and what a step is to keep.
use rocketmq_proxy.Prelude.{ℕ, List, ◌∷◌, ◌≡◌, bytes_less}
use rocketmq_proxy.StdMap.Values.{AllValues}
use rocketmq_proxy.World.{World, M, ok, ◌>>=◌}
use rocketmq_proxy.Calls.{RequestType, request_produce, request_consume, request_consume_ack}
use rocketmq_proxy.System.{Step}
use rocketmq_proxy.System.Contract.{answered, handled}
use rocketmq_proxy.System.Alive.Kinds.{
  Produces, Consumes, Acks, Produces-past, Consumes-past, Acks-past,
}
use rocketmq_proxy.System.Alive.Pool.{waiting, InRange, IsSettled}
use rocketmq_proxy.System.Alive.Quiet.{Hidden, hidden, with_hidden, IsSound, Quiet}

-- Every call object fits its operations and events: a call that sends a message waits for one
-- callback, and a call that asks for one waits for one unit of the pool. The pool and the map of
-- the delivered messages lead to units.
pub record IsAlive (past : List Step) (w : World) : Type 0 where
  pub produces : Produces w.produce_calls w.actions past
  pub consumes :
      Consumes w.consume_calls w.actions past
        (waiting w.consume_msg_units w.consume_msg_pool.data_queue)
  pub acks : Acks w.consume_ack_calls w.actions past
  pub in_range : InRange w.consume_msg_units w.consume_msg_pool.data_queue
  pub settled : AllValues (IsSettled w.consume_msg_units) w.id_unit_map.the_map
  pub sound : IsSound (hidden w)

-- The hidden part has no part in it but its own.
pub with_hidden-IsAlive :
    (past : List Step) (w : World) (h : Hidden)
    → IsSound h
    → IsAlive past w
    → IsAlive past (with_hidden w h)
with_hidden-IsAlive past w h sound v = record {
  produces = v.produces;
  consumes = v.consumes;
  acks = v.acks;
  in_range = v.in_range;
  settled = v.settled;
  sound = sound;
}

-- A step that is no event.
pub past-IsAlive :
    (past : List Step) (w : World) (s : Step)
    → ((t : RequestType) (a : ℕ) → handled t a s ≡ 0)
    → ((a : ℕ) → answered a s ≡ 0)
    → IsAlive past w
    → IsAlive (s ∷ past) w
past-IsAlive past w s no_event no_answer v = record {
  produces =
      Produces-past w.produce_calls w.actions past s (no_event request_produce) no_answer
        v.produces;
  consumes =
      Consumes-past w.consume_calls w.actions past
        (waiting w.consume_msg_units w.consume_msg_pool.data_queue) s (no_event request_consume)
        v.consumes;
  acks = Acks-past w.consume_ack_calls w.actions past s (no_event request_consume_ack) v.acks;
  in_range = v.in_range;
  settled = v.settled;
  sound = v.sound;
}

-- A step of a thread that does not fault, with what holds of its result and of the state after it.
pub record Runs {A : Type 0} (m : M A) (w : World) (P : A → World → Type 0) : Type 0 where
  pub result : A
  pub state : World
  pub ran : m w ≡ ok (result, state)
  pub holds : P result state

abbrev pub Leaves : (World → Type 0) → Unit {0} → World → Type 0
Leaves P x w = P w

-- What follows a step that has run.
pub Runs-bind :
    {A B : Type 0} (m : M A) (f : A → M B) (w w' : World) (x : A) (P : B → World → Type 0)
    → m w ≡ ok (x, w')
    → Runs (f x) w' P
    → Runs (m >>= f) w P
Runs-bind m f w w' x P ran rest = record {
  result = rest.result;
  state = rest.state;
  ran = rw (ran, ◌>>=◌) rest.ran;
  holds = rest.holds;
}

-- What follows a quiet step.
pub Quiet-bind :
    {A B : Type 0} (m : M A) (f : A → M B) (w : World) (Q : A → Hidden → Type 0)
    (P : B → World → Type 0)
    → Quiet m w Q
    → ((x : A) (h : Hidden) → IsSound h → Q x h → Runs (f x) (with_hidden w h) P)
    → Runs (m >>= f) w P
Quiet-bind m f w Q P (x, h, ran, sound, q) rest =
    Runs-bind m f w (with_hidden w h) x P ran (rest x h sound q)

-- What follows where the outcome is known before.
pub Runs-ran :
    {A : Type 0} (m : M A) (w w' : World) (x : A) (P : A → World → Type 0)
    → m w ≡ ok (x, w')
    → P x w'
    → Runs m w P
Runs-ran m w w' x P ran p = record { result = x; state = w'; ran = ran; holds = p }
