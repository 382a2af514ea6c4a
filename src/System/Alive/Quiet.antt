-- ===== src/System/Alive/Quiet.antt =====
-- Steps on the consumers and on the log, which leave the call objects and their units alone.
use rocketmq_proxy.Prelude.{
  All-get, All-set, ℕ, ◌<◌, true, List, [], ◌∷◌, ◌++◌, Option, some, Bytes, bytes_less, length, set,
  arith, ◌≡◌, ◌∙◌, refl, inl, inr, All, All-mono, All-append, Option-cases, length-append,
  length-set, get_elem?-lt,
}
use rocketmq_proxy.StdMap.{Map}
use rocketmq_proxy.StdMap.Values.{AllValues, find-AllValues, insert-AllValues}
use rocketmq_proxy.QueueTs.{QueueTs}
use rocketmq_proxy.MapTs
use rocketmq_proxy.MapTs.{MapTs}
use rocketmq_proxy.Message.{MsgUnit, reconsume_later}
use rocketmq_proxy.Consumer.{ConsumerUnit, set_msg_reconsume}
use rocketmq_proxy.Consumer.History.{unit_step, unit_step-AllValid, acknowledges, UnitIsValid}
use rocketmq_proxy.Broker.{Broker, DefaultMqPushConsumer, DefaultMqProducer}
use rocketmq_proxy.World.{World, M, ok, LogUnit, ProducerUnit}
use rocketmq_proxy.Worker.{
  get_consumer, new_consumer, prepare_consumer, init_msg_queue, reset_consumer_active,
}
use rocketmq_proxy.Worker.Consumers.{get_consumer_known, get_consumer_new}
use rocketmq_proxy.Matcher.{reconsume}
use rocketmq_proxy.Matcher.Rounds.{reset_consumer_active_known}

-- The library starts every consumer and every producer.
pub record Starts (b : Broker) : Type 0 where
  pub consumers : (c : DefaultMqPushConsumer) (now : ℕ) → b.consumer_start c now ≡ true
  pub producers : (p : DefaultMqProducer) (now : ℕ) → b.producer_start p now ≡ true

-- The part of the state that has no part in the call objects.
pub record Hidden : Type 0 where
  pub producers : Map Bytes ProducerUnit
  pub consumers : MapTs Bytes ℕ
  pub consumer_units : List ConsumerUnit
  pub msg_pool : MapTs Bytes (QueueTs MsgUnit)
  pub log_queue : QueueTs LogUnit

abbrev pub hidden : World → Hidden
hidden w = record {
  producers = w.producers;
  consumers = w.consumers;
  consumer_units = w.consumer_units;
  msg_pool = w.msg_pool;
  log_queue = w.log_queue;
}

abbrev pub with_hidden : World → Hidden → World
with_hidden w h = record w {
  producers = h.producers;
  consumers = h.consumers;
  consumer_units = h.consumer_units;
  msg_pool = h.msg_pool;
  log_queue = h.log_queue;
}

-- The batches of all consumers are valid, and the map of the consumers leads to consumers.
pub record IsSound (h : Hidden) : Type 0 where
  pub batches : All UnitIsValid h.consumer_units
  pub known : AllValues (λ k. k < length h.consumer_units) h.consumers.the_map

-- A step that does not fault and changes nothing but the hidden part.
abbrev pub Quiet : {A : Type 0} → M A → World → (A → Hidden → Type 0) → Type 0
Quiet {A = A} m w Q = (x : A) × (h : Hidden) × (m w ≡ ok (x, with_hidden w h)) × IsSound h × Q x h

abbrev pub Nothing : Unit {0} → Hidden → Type 0
Nothing x h = Unit

-- A consumer that is there.
abbrev pub Finds : Option ℕ → Hidden → Type 0
Finds o h = (k : ℕ) × (o ≡ some k) × (k < length h.consumer_units)

-- A consumer's unit is replaced.
abbrev pub with_unit : Hidden → ℕ → ConsumerUnit → Hidden
with_unit h k u = record h { consumer_units = set h.consumer_units k u }

pub with_unit-IsSound :
    (h : Hidden) (k : ℕ) (u : ConsumerUnit) → UnitIsValid u → IsSound h → IsSound (with_unit h k u)
with_unit-IsSound h k u valid v = record {
  batches = All-set UnitIsValid h.consumer_units k u v.batches valid;
  known =
      All-mono _ _ h.consumers.the_map (λ e k'. omega (arith, length-set h.consumer_units k u))
        v.known;
}

pub try_get-lt :
    (h : Hidden) (key : Bytes) (k : ℕ)
    → IsSound h
    → MapTs.try_get h.consumers key ≡ some k
    → k < length h.consumer_units
unfolding MapTs.try_get
try_get-lt h key k v e = find-AllValues _ key k h.consumers.the_map v.known e

new_consumer-UnitIsValid :
    (topic group : Bytes) (w : World) → UnitIsValid (new_consumer topic group w)
unfolding new_consumer
new_consumer-UnitIsValid topic group w = tt

module _ (w : World) (v : IsSound (hidden w)) where
  pub get_consumer-Quiet :
      (b : Broker) (topic group : Bytes) → Starts b → Quiet (get_consumer b topic group) w Finds
  unfolding MapTs.try_get MapTs.insert init_msg_queue prepare_consumer
  get_consumer-Quiet b topic group starts =
      elim (Option-cases (MapTs.try_get w.consumers (topic ++ group))) [
        | inr (k, known) ↦ (
          some k,
          hidden w,
          get_consumer_known b topic group w k known,
          v,
          (k, refl, try_get-lt (hidden w) (topic ++ group) k v known),
        )
        | inl unknown ↦
            let u = new_consumer topic group w in
            let more = length-append w.consumer_units (u ∷ []) in
            let new : length w.consumer_units < length (w.consumer_units ++ u ∷ []) = omega arith in
            (
              some (length w.consumer_units),
              record {
                producers = w.producers;
                consumers = MapTs.insert w.consumers (topic ++ group) (length w.consumer_units);
                consumer_units = w.consumer_units ++ u ∷ [];
                msg_pool = (init_msg_queue (topic ++ group) w).msg_pool;
                log_queue = w.log_queue;
              },
              get_consumer_new b topic group w unknown
                  ∙ rw (starts.consumers u.consumer w.now) refl,
              record {
                batches =
                    All-append UnitIsValid w.consumer_units (u ∷ []) v.batches
                      (new_consumer-UnitIsValid topic group w, tt);
                known =
                    insert-AllValues _ (topic ++ group) (length w.consumer_units)
                      w.consumers.the_map new
                      (All-mono _ _ w.consumers.the_map (λ e k. omega arith) v.known);
              },
              (length w.consumer_units, refl, new),
            )
      ]

  pub reset_consumer_active-Quiet :
      (topic group : Bytes) → Quiet (reset_consumer_active topic group) w Nothing
  reset_consumer_active-Quiet topic group =
      elim (Option-cases (MapTs.try_get w.consumers (topic ++ group))) [
        | inl unknown ↦
            (tt, hidden w, unfold reset_consumer_active in ground (arith, unknown), v, tt)
        | inr (k, known) ↦
            let (u, at_k) =
              get_elem?-lt w.consumer_units k (try_get-lt (hidden w) (topic ++ group) k v known) in
            (
              tt,
              with_unit (hidden w) k (record u { last_active_at = w.now }),
              reset_consumer_active_known topic group w k u known at_k,
              with_unit-IsSound (hidden w) k _
                  (All-get UnitIsValid w.consumer_units k u v.batches at_k) v,
              tt,
            )
      ]

  pub reconsume-Quiet :
      (k : ℕ) (id : Bytes) → k < length w.consumer_units → Quiet (reconsume (some k) id) w Nothing
  unfolding reconsume set_msg_reconsume unit_step
  reconsume-Quiet k id there =
      let (u, at_k) = get_elem?-lt w.consumer_units k there in
      (
        tt,
        with_unit (hidden w) k (set_msg_reconsume id u).1,
        rw at_k,
        with_unit-IsSound (hidden w) k _
            (unit_step-AllValid u (acknowledges id reconsume_later)
              (All-get UnitIsValid w.consumer_units k u v.batches at_k))
            v,
        tt,
      )
