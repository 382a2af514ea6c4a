-- ===== src/Calls/Produce/Retry.antt =====
-- The retries of a request to send a message.
use rocketmq_proxy.Prelude.{
  ℕ, zero, suc, ◌+◌, ◌≤◌, ◌<◌, false, List, [], ◌∷◌, ◌++◌, none, some, Bytes, bytes_less, length,
  get_elem?, set, arith, ◌≡◌, refl, sym, ap, ap₂, ◌∙◌, get_elem?-set_self, length-append,
  length-set, get_elem?-append_old, set-set, set-same, append_assoc, append-nil,
}
use rocketmq_proxy.StdMap.{find}
use rocketmq_proxy.Proto.{ProduceRequest, empty_produce_request, empty_produce_reply}
use rocketmq_proxy.Broker.{Broker}
use rocketmq_proxy.World.{
  World, ok, ProduceCallData, ProducerUnit, Action, send, request_produce, finish_produce, M, ◌>>◌,
  process, finish,
}
use rocketmq_proxy.Calls.{response_error}
use rocketmq_proxy.Calls.Produce.{process_call, on_failure, lacks_param}
use rocketmq_proxy.Calls.Produce.Branches.{
  outgoing, finished_with, failed, waiting_call, process_call_sends, fail_with_lem,
}

-- The calls of the libraries in `n` tries of the call at `a`, where `k` call objects were there
-- before: a new call object asks for a request, and the message goes out.
pub tries : ℕ → ProduceRequest → ℕ → ℕ → List Action
tries a r k zero = []
tries a r k (suc n) = tries a r k n ++ request_produce (k + n) ∷ send a (outgoing r) ∷ []

-- `n` call objects that wait for requests.
pub waiting_calls : ℕ → List ProduceCallData
waiting_calls zero = []
waiting_calls (suc n) =
    waiting_calls n
    ++ record {
      status = process;
      retry_count = 0;
      request = empty_produce_request;
      reply = empty_produce_reply;
      deleted = false;
    }
      ∷ []

length-waiting_calls : (n : ℕ) → length (waiting_calls n) ≡ n
unfolding waiting_calls
length-waiting_calls zero = refl
length-waiting_calls (suc n) =
    omega (arith, length-append (waiting_calls n) (waiting_call ∷ []), length-waiting_calls n)

set-append_old :
    {A : Type 0} (xs ys : List A) (i : ℕ) (x y : A)
    → get_elem? xs i ≡ some y
    → set (xs ++ ys) i x ≡ set xs i x ++ ys
set-append_old [] ys i x y e = absurd (cc)
set-append_old (z ∷ xs) ys zero x y e = refl
set-append_old (z ∷ xs) ys (suc i) x y e = ap (◌∷◌ z) (set-append_old xs ys i x y e)

-- The broker reports a failure of each message that was sent, with a text.
pub failures : Broker → ℕ → List Bytes → M (Unit {0})
failures b a [] = process_call b a
failures b a (text ∷ earlier) = failures b a earlier >> on_failure b a text

-- The state after `n` failures, each of which was retried: `n + 1` tries, for a call whose status,
-- request and reply are as they were.
abbrev pub tried : World → ℕ → ProduceCallData → ℕ → World
tried w a d n = record w {
  produce_calls = set w.produce_calls a (record d { retry_count = n }) ++ waiting_calls (suc n);
  actions = w.actions ++ tries a d.request (length w.produce_calls) (suc n);
}

module _ (b : Broker) (w : World) (a : ℕ) (d : ProduceCallData) (p : ProducerUnit)
    (at_a : get_elem? w.produce_calls a ≡ some d) (alive : d.deleted ≡ false)
    (fresh : d.retry_count ≡ 0) (complete : lacks_param d.request ≡ false)
    (known : find (d.request.topic ++ d.request.group) w.producers ≡ some p)
    (sent : b.send (outgoing d.request) w.now ≡ none) where
  abbrev again : ℕ → ProduceCallData
  again n = record d { retry_count = n }

  -- The state after `n` tries, when the call has failed `m` times.
  abbrev after : ℕ → ℕ → World
  after n m = record w {
    produce_calls = set w.produce_calls a (again m) ++ waiting_calls n;
    actions = w.actions ++ tries a d.request (length w.produce_calls) n;
  }

  call_after : (n m : ℕ) → get_elem? (after n m).produce_calls a ≡ some (again m)
  call_after n m =
      get_elem?-append_old (set w.produce_calls a (again m)) (waiting_calls n) a (again m)
        (get_elem?-set_self w.produce_calls a (again m) d at_a)

  size_after : (n m : ℕ) → length (after n m).produce_calls ≡ length w.produce_calls + n
  size_after n m =
      length-append (set w.produce_calls a (again m)) (waiting_calls n)
      ∙ ap₂ ◌+◌ (length-set w.produce_calls a (again m)) (length-waiting_calls n)

  -- One more try.
  try_after : (n m : ℕ) → process_call b a (after n m) ≡ ok (tt, after (suc n) m)
  unfolding tries waiting_calls
  try_after n m =
      process_call_sends b (after n m) a (again m) p (call_after n m) alive complete known sent
      ∙ ap₂ (λ calls acts. ok (tt, record w { produce_calls = calls; actions = acts }))
          (append_assoc (set w.produce_calls a (again m)) (waiting_calls n) (waiting_call ∷ []))
          (simp (append_assoc, size_after n m))

  rewritten :
      (n m : ℕ) (d' : ProduceCallData)
      → set (after n m).produce_calls a d' ≡ set w.produce_calls a d' ++ waiting_calls n
  rewritten n m d' =
      set-append_old (set w.produce_calls a (again m)) (waiting_calls n) a d' (again m)
        (get_elem?-set_self w.produce_calls a (again m) d at_a)
      ∙ ap (λ calls. calls ++ waiting_calls n) (set-set w.produce_calls a (again m) d')

  -- One more failure is counted.
  counted :
      (n m : ℕ)
      → record (after n m) { produce_calls = set (after n m).produce_calls a (again (m + 1)) }
        ≡ after n (m + 1)
  counted n m =
      ap (λ calls. record (after n m) { produce_calls = calls }) (rewritten n m (again (m + 1)))

  retry_after :
      (n m : ℕ) (text : Bytes)
      → m < 5
      → on_failure b a text (after n m) ≡ ok (tt, after (suc n) (m + 1))
  unfolding on_failure
  retry_after n m text few = ground (arith, call_after n m, counted n m, try_after n (m + 1))

  start_after : w ≡ after 0 0
  unfolding tries waiting_calls
  start_after =
      let same : again 0 ≡ d = λ i. record d { retry_count = sym fresh i } in
      ap₂ (λ calls acts. record w { produce_calls = calls; actions = acts })
        (sym (append-nil _ ∙ set-same w.produce_calls a (again 0) (at_a ∙ ap some (sym same))))
        (sym (append-nil w.actions))

  -- A complete request whose producer is known and whose sends do not throw: after up to five
  -- failures that the broker reports, the message has been sent once for the request and once for
  -- each failure, and before each of these sends a new call object has asked for a request. The
  -- call has counted the failures and has no answer, and nothing else has changed.
  pub failures_retried :
      (texts : List Bytes)
      → length texts ≤ 5
      → failures b a texts w ≡ ok (tt, tried w a d (length texts))
  unfolding failures
  failures_retried [] few = ap (process_call b a) start_after ∙ try_after 0 0
  failures_retried (text ∷ earlier) few = ground (
    arith,
    failures_retried earlier (omega arith),
    retry_after (suc (length earlier)) (length earlier) text (omega arith),
  )

  last_try :
      (text : Bytes)
      → on_failure b a text (after 6 5) ≡ ok (tt, finished_with (after 6 6) a (again 6) text)
  unfolding on_failure
  last_try text = ground (
    arith,
    call_after 6 5,
    counted 6 5,
    fail_with_lem (after 6 6) a (again 6) text (call_after 6 6) alive,
  )

  -- The sixth failure ends the call: the client is answered with `RESPONSE_ERROR` and the text of
  -- that failure, and the message, which has been sent six times, is not sent again; nothing else
  -- changes.
  pub failures_give_up :
      (text : Bytes) (texts : List Bytes)
      → length texts ≡ 5
      → failures b a (text ∷ texts) w
        ≡ ok (
          tt,
          record (tried w a d 5) {
            produce_calls =
                set w.produce_calls a (record d {
                  status = finish;
                  retry_count = 6;
                  reply = record { code = response_error; msg_id = d.reply.msg_id; err_msg = text };
                })
                ++ waiting_calls 6;
            actions =
                (tried w a d 5).actions
                ++ finish_produce a
                    (record { code = response_error; msg_id = d.reply.msg_id; err_msg = text })
                  ∷ [];
          },
        )
  unfolding failures
  failures_give_up text texts five =
      let retried : failures b a texts w ≡ ok (tt, after 6 5) =
        failures_retried texts (omega arith) ∙ ap (λ n. ok (tt, tried w a d n)) five in
      ground (arith, retried, last_try text, rewritten 6 6 (failed (again 6) text))
