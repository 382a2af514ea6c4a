-- ===== src/Notify.antt =====
-- The condition variable `notifyCV` (MsgWorker.h): the matcher waits for it when it has found the
-- pool empty, and a request that comes and the thread `notifyTimeout` notify it. The matcher does
-- not hold `notifyMtx` when it finds the pool empty, and those who notify do not take it, so a
-- notification may come before the wait.
pub mod Missed
use rocketmq_proxy.Prelude.{ℕ, Bool, true, false, List, [], ◌∷◌}
use rocketmq_proxy.Broker.{Broker}
use rocketmq_proxy.World.{World, Result, ok, fault}
use rocketmq_proxy.Matcher.{match_round}
use rocketmq_proxy.Calls.Consume

-- Where the matcher is: before a look at the pool, between the end of the inner loop and the wait,
-- or in `notifyCV.wait(lk)`.
pub data MatcherAt : Type 0 where
  looking leaving waiting : MatcherAt

-- `notify_all` of `notifyCV`: only a thread that waits hears it.
unfoldable pub notify_all : MatcherAt → MatcherAt
notify_all looking = looking
notify_all leaving = leaving
notify_all waiting = looking

-- What the look at the pool leads to.
abbrev looked : Result (Bool × World) → Result (MatcherAt × World)
looked (ok (true, w)) = ok (looking, w)
looked (ok (false, w)) = ok (leaving, w)
looked (fault e) = fault e

-- A step of `loopMatch`: a round of the inner loop, or the start of the wait.
unfoldable pub matcher_step : Broker → MatcherAt → World → Result (MatcherAt × World)
matcher_step b looking w = looked (match_round b w)
matcher_step b leaving w = ok (waiting, w)
matcher_step b waiting w = ok (waiting, w)

-- `process` of the consume call at an address: the request goes to the pool, then `notify_all`.
unfoldable pub request_step : ℕ → MatcherAt → World → Result (MatcherAt × World)
unfolding notify_all
request_step a at w = elim (Consume.process_call a w) [
  | ok (_, w') ↦ ok (notify_all at, w')
  | fault e ↦ fault e
]

-- A turn of the loop of `notifyTimeout`, after its sleep.
unfoldable pub tick : MatcherAt → World → Result (MatcherAt × World)
unfolding notify_all
tick at w = ok (notify_all at, w)

-- Whose turn it is.
pub data Turn : Type 0 where
  matches ticks : Turn
  requests : ℕ → Turn

unfoldable pub turn : Broker → Turn → MatcherAt → World → Result (MatcherAt × World)
unfolding matcher_step request_step tick
turn b matches at w = matcher_step b at w
turn b ticks at w = tick at w
turn b (requests a) at w = request_step a at w

unfoldable pub turns : Broker → List Turn → MatcherAt → World → Result (MatcherAt × World)
turns b [] at w = ok (at, w)
turns b (t ∷ ts) at w = elim (turn b t at w) [
  | ok (at', w') ↦ turns b ts at' w'
  | fault e ↦ fault e
]
