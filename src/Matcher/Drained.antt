-- ===== src/Matcher/Drained.antt =====
-- When the inner loop of the matcher ends.
use rocketmq_proxy.Prelude.{
  ℕ, suc, true, false, List, [], ◌∷◌, ◌++◌, Option, none, some, Bytes, bytes_less, get_elem?, set,
  length, arith, ◌≡◌, refl, ap, ap₂, sym, ◌∙◌, zero, append-nil, append_assoc, bytes, Bool, inl,
  inr, All, All-mono,
}
use rocketmq_proxy.QueueTs
use rocketmq_proxy.QueueTs.{QueueTs}
use rocketmq_proxy.Message.{consume_ack}
use rocketmq_proxy.Consumer.{
  ConsumerUnit, fetch, fetch_lockers, set_msg_reconsume, set_msg_ack, ack_lockers,
}
use rocketmq_proxy.Broker.{Broker}
use rocketmq_proxy.World.{
  World, ok, is_init, Action, ConsumeCallData, ConsumeMsgUnit, finish_consume,
}
use rocketmq_proxy.Worker.Consumers.{get_consumer_known}
use rocketmq_proxy.Matcher.{match_unit, match_round, match_rounds}
use rocketmq_proxy.Calls.{response_timeout}
use rocketmq_proxy.Matcher.Rounds.{match_unit_timeout, match_unit_ack_timeout, ended_by_timeout}
use rocketmq_proxy.Matcher.Ends.{Ends, IsOver, keep_consumers, keep_calls, keep_rest}

-- The answer of a call that timed out: what its reply held, with the code and the text.
abbrev pub timed_out : ℕ → Option ConsumeCallData → List Action
timed_out a none = []
timed_out a (some d) =
    finish_consume a (record {
      code = response_timeout;
      msg_id = d.reply.msg_id;
      body = d.reply.body;
      error_msg = bytes "get msg timeout";
    })
    ∷ []

abbrev pub answers_if : Bool → List Action → List Action
answers_if true xs = xs
answers_if false xs = []

-- The answers that a unit of the pool gets, and those of all units, in the order of the pool.
abbrev pub answers : List ConsumeCallData → Option ConsumeMsgUnit → List Action
answers calls none = []
answers calls (some unit) =
    answers_if (is_init unit.status) (timed_out unit.call_data (get_elem? calls unit.call_data))

abbrev pub answers_in : List ConsumeCallData → List ConsumeMsgUnit → List ℕ → List Action
answers_in calls units [] = []
answers_in calls units (a ∷ pool) = answers calls (get_elem? units a) ++ answers_in calls units pool

-- An answer keeps the id and the body that the call's reply held, so a later one is as it was.
timed_out-set :
    (calls : List ConsumeCallData) (c a x : ℕ) (d : ConsumeCallData)
    → get_elem? calls c ≡ some d
    → timed_out x (get_elem? (set calls c (ended_by_timeout d)) a) ≡ timed_out x (get_elem? calls a)
timed_out-set [] c a x d e = refl
timed_out-set (y ∷ calls) zero zero x d e = ground arith
timed_out-set (y ∷ calls) zero (suc a) x d e = refl
timed_out-set (y ∷ calls) (suc c) zero x d e = refl
timed_out-set (y ∷ calls) (suc c) (suc a) x d e = timed_out-set calls c a x d e

abbrev AnswersAlike : World → World → Type 0
AnswersAlike w w' =
    (a : ℕ) → timed_out a (get_elem? w'.consume_calls a) ≡ timed_out a (get_elem? w.consume_calls a)

answers_alike :
    (w w' : World) (o : Option ConsumeMsgUnit)
    → AnswersAlike w w'
    → answers w'.consume_calls o ≡ answers w.consume_calls o
answers_alike w w' none alike = refl
answers_alike w w' (some unit) alike = ap (answers_if (is_init unit.status)) (alike unit.call_data)

answers_in_alike :
    (w w' : World) (units : List ConsumeMsgUnit) (pool : List ℕ)
    → AnswersAlike w w'
    → answers_in w'.consume_calls units pool ≡ answers_in w.consume_calls units pool
answers_in_alike w w' units [] alike = refl
answers_in_alike w w' units (a ∷ pool) alike =
    ap₂ ◌++◌ (answers_alike w w' (get_elem? units a) alike) (answers_in_alike w w' units pool alike)

-- A step that ends a unit: the others still end, and the pool is as it was.
abbrev Ended : Broker → World → ℕ → Type 0
Ended b w a =
    (w' : World) × (match_unit b a w ≡ ok (tt, w'))
    × (w'.consume_msg_pool ≡ w.consume_msg_pool)
    × (w'.consume_msg_units ≡ w.consume_msg_units)
    × (w'.actions ≡ w.actions ++ answers w.consume_calls (get_elem? w.consume_msg_units a))
    × AnswersAlike w w'
    × ((a' : ℕ) → Ends w a' → Ends w' a')

fetch_idle : (u : ConsumerUnit) → u.lockers ≡ [] → fetch u ≡ none
unfolding fetch fetch_lockers
fetch_idle u idle = ground arith

reconsume_idle :
    (u : ConsumerUnit) (id : Bytes) → u.lockers ≡ [] → (set_msg_reconsume id u).1.lockers ≡ []
unfolding set_msg_reconsume set_msg_ack ack_lockers
reconsume_idle u id idle = ground arith

match_unit_acked :
    (b : Broker) (w : World) (a : ℕ) (e : Ends w a)
    → e.unit.status ≡ consume_ack
    → match_unit b a w ≡ ok (tt, w)
unfolding match_unit
match_unit_acked b w a e acked =
    ground (arith, e.at_a, get_consumer_known b e.unit.topic e.unit.group w e.consumer e.known)

match_unit-Ended : (b : Broker) (w : World) (a : ℕ) (e : Ends w a) → IsOver w e.unit → Ended b w a
match_unit-Ended b w a e (inl acked) = (
  w,
  match_unit_acked b w a e acked,
  refl,
  refl,
  sym (append-nil w.actions) ∙ ap (λ xs. w.actions ++ xs) (ground (arith, e.at_a, acked)),
  λ a'. refl,
  λ a' e'. e',
)
match_unit-Ended b w a e (inr (inl (received, late))) =
    let u' = (set_msg_reconsume e.unit.msg_id e.u).1 in
    (
      record w { consumer_units = set w.consumer_units e.consumer u' },
      match_unit_ack_timeout b w a e.consumer e.unit e.u e.at_a received e.known e.at_consumer late,
      refl,
      refl,
      sym (append-nil w.actions) ∙ ap (λ xs. w.actions ++ xs) (ground (arith, e.at_a, received)),
      λ a'. refl,
      λ a'. keep_consumers w a' e.consumer u' (reconsume_idle e.u e.unit.msg_id e.idle),
    )
match_unit-Ended b w a e (inr (inr (waiting, late, can))) =
    let (d, at_d, alive) = can in
    let u' : ConsumerUnit = record (e.u) { last_active_at = w.now } in
    let w₁ : World = record w { consumer_units = set w.consumer_units e.consumer u' } in
    (
      record w₁ {
        consume_calls = set w.consume_calls e.unit.call_data (ended_by_timeout d);
        actions = w.actions ++ finish_consume e.unit.call_data (ended_by_timeout d).reply ∷ [];
      },
      match_unit_timeout b w a e.consumer e.unit e.u d e.at_a waiting e.known e.at_consumer
          (fetch_idle e.u e.idle) late at_d alive,
      refl,
      refl,
      ap (λ xs. w.actions ++ xs) (ground (arith, e.at_a, waiting, at_d)),
      λ a'. timed_out-set w.consume_calls e.unit.call_data a' a' d at_d,
      λ a' e'. keep_rest _ a' w.consume_msg_pool _ (
          keep_calls w₁ a' e.unit.call_data (ended_by_timeout d) alive
            (keep_consumers w a' e.consumer u' e.idle e')),
    )

-- A test of the inner loop that takes a unit which ends.
pub match_round_ended :
    (b : Broker) (w w' : World) (a : ℕ) (pool : List ℕ)
    → w.consume_msg_pool ≡ record { data_queue = a ∷ pool }
    → match_unit b a (record w { consume_msg_pool = record { data_queue = pool } }) ≡ ok (tt, w')
    → match_round b w ≡ ok (true, w')
unfolding match_round QueueTs.try_pop
match_round_ended b w w' a pool pooled ran = ground arith

pub match_round_empty :
    (b : Broker) (w : World)
    → w.consume_msg_pool ≡ record { data_queue = [] }
    → match_round b w ≡ ok (false, w)
unfolding match_round QueueTs.try_pop
match_round_empty b w pooled = ground arith

-- Where every unit of the pool is acknowledged or has waited for ten seconds, and no batch is there
-- for it: the inner loop ends. It takes one test for each unit and one that finds the pool empty.
-- What was handed to the libraries since is, in the order of the pool, one answer for each request
-- that still waited for a message, to its call, with RESPONSE_TIMEOUT and the text "get msg timeout",
-- and nothing else.
pub match_rounds_end :
    (b : Broker) (pool : List ℕ) (w : World)
    → w.consume_msg_pool ≡ record { data_queue = pool }
    → All (Ends w) pool
    → (w' : World) × (match_rounds b (suc (length pool)) w ≡ ok (false, w'))
      × (w'.consume_msg_pool ≡ QueueTs.new)
      × (w'.actions ≡ w.actions ++ answers_in w.consume_calls w.consume_msg_units pool)
unfolding match_rounds QueueTs.new
match_rounds_end b [] w pooled over =
    (w, ground (arith, match_round_empty b w pooled), pooled, sym (append-nil w.actions))
match_rounds_end b (a ∷ pool) w pooled over =
    let w₀ : World = record w { consume_msg_pool = record { data_queue = pool } } in
    let rest : (a' : ℕ) → Ends w a' → Ends w₀ a' =
      λ a'. keep_rest w a' w₀.consume_msg_pool w.actions in
    let e : Ends w₀ a = rest a over.0 in
    let (w₁, ran, same_pool, same_units, sent, alike, keep) = match_unit-Ended b w₀ a e e.over in
    let (w', ended, empty, answered) =
      match_rounds_end b pool w₁ same_pool
        (All-mono (Ends w) (Ends w₁) pool (λ a' e'. keep a' (rest a' e')) over.1) in
    (
      w',
      ground (arith, match_round_ended b w w₁ a pool pooled ran, ended),
      empty,
      answered
          ∙ ap₂ ◌++◌ sent (
              answers_in_alike w₀ w₁ w₁.consume_msg_units pool alike
              ∙ ap (λ units. answers_in w.consume_calls units pool) same_units)
          ∙ append_assoc w.actions (answers w.consume_calls (get_elem? w.consume_msg_units a))
              (answers_in w.consume_calls w.consume_msg_units pool),
    )
