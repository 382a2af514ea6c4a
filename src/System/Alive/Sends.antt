-- ===== src/System/Alive/Sends.antt =====
-- The tallies of the calls that send a message: the event of a request, and the callback of a send.
use mathlib.Core.Path.{subst}
use rocketmq_proxy.Prelude.{
  ℕ, suc, ◌+◌, ◌≤◌, ◌<◌, true, false, List, [], ◌∷◌, ◌++◌, some, total, total-append, length,
  get_elem?, set, arith, ◌≡◌, refl, sym, set-same, ℕ_discrete,
}
use rocketmq_proxy.Broker.{MqMessage}
use rocketmq_proxy.Proto.{ProduceReply}
use rocketmq_proxy.World.{
  process, finish, ProduceCallData, Action, request_produce, finish_produce, send,
}
use rocketmq_proxy.Calls
use rocketmq_proxy.Calls.Produce.Branches.{waiting_call}
use rocketmq_proxy.System.{Step}
use rocketmq_proxy.System.Contract.{one, sent, answered, handled}
use rocketmq_proxy.System.Alive.Counts.{Fits, Fits-new, Fits-waiting, Fits-past, Fits-emit}
use rocketmq_proxy.System.Alive.Changes.{Fits-begin, Fits-finish, Fits-end, Fits-edit}
use rocketmq_proxy.System.Alive.Kinds.{Produces, produce_view, owed}

abbrev t : Calls.RequestType
t = Calls.request_produce

-- The counts of the sends after one more action.
pub sent-append :
    (a : ℕ) (acts : List Action) (x : Action)
    → total (sent a) (acts ++ x ∷ []) ≡ total (sent a) acts + sent a x
sent-append a acts x = omega (arith, total-append (sent a) acts (x ∷ []))

module _ (cs : List ProduceCallData) (acts : List Action) (past : List Step)
    (p : Produces cs acts past) where
  -- A new call object asks for its request.
  pub Produces-new :
      Produces (cs ++ waiting_call ∷ []) (acts ++ request_produce (length cs) ∷ []) past
  Produces-new =
      let x : Action = request_produce (length cs) in
      (
        Fits-waiting produce_view t _ _ past (owed acts past) (owed (acts ++ x ∷ []) past)
            (λ i. ground (arith, sent-append i acts x))
            (Fits-new produce_view t cs acts past (owed acts past) waiting_call x refl
              (λ i. (refl, refl)) p.0),
        λ i. ground (arith, sent-append i acts x, p.1 i),
      )

  -- The event of the answer comes, and the object is deleted.
  pub Produces-end :
      (a : ℕ) (c c' : ProduceCallData) (s : Step)
      → get_elem? cs a ≡ some c
      → produce_view c ≡ (finish, false)
      → produce_view c' ≡ (finish, true)
      → ((i : ℕ) → handled t i s ≡ one i a)
      → ((i : ℕ) → answered i s ≡ 0)
      → Produces (set cs a c') acts (s ∷ past)
  Produces-end a c c' s at_a e e' event no_answer = (
    Fits-waiting produce_view t (set cs a c') acts (s ∷ past) (owed acts past)
        (owed acts (s ∷ past)) (λ i. ground (arith, no_answer i))
        (Fits-end produce_view t cs acts past (owed acts past) a c at_a p.0 c' s e e' event),
    λ i. ground (arith, no_answer i, p.1 i),
  )

  module _ (a : ℕ) (d : ProduceCallData) (at_a : get_elem? cs a ≡ some d)
      (waits : produce_view d ≡ (process, false)) where
    -- A change that no count sees.
    pub Produces-edit :
        (d' : ProduceCallData) → produce_view d' ≡ produce_view d → Produces (set cs a d') acts past
    Produces-edit d' e =
        (Fits-edit produce_view t cs acts past (owed acts past) a d at_a p.0 d' e, p.1)

    module _ (s : Step) (event : (i : ℕ) → handled t i s ≡ one i a)
        (no_answer : (i : ℕ) → answered i s ≡ 0) (first : total (handled t a) past ≡ 0)
        (older : suc a < length cs) where
      -- The event of the request comes, and something is to answer it.
      begun : Fits produce_view t cs acts (s ∷ past) (λ i. one i a + owed acts past i)
      begun =
          subst (λ l. Fits produce_view t l acts (s ∷ past) (λ i. one i a + owed acts past i))
            (set-same cs a d at_a)
            (Fits-begin produce_view t cs acts past (owed acts past) a d at_a p.0 d s
              (λ i. one i a + owed acts past i) waits waits event first older (λ i. refl))

      -- It sends a message.
      pub Produces-send : (msg : MqMessage) → Produces cs (acts ++ send a msg ∷ []) (s ∷ past)
      Produces-send msg =
          let x : Action = send a msg in
          (
            Fits-waiting produce_view t cs (acts ++ x ∷ []) (s ∷ past)
                (λ i. one i a + owed acts past i) (owed (acts ++ x ∷ []) (s ∷ past))
                (λ i. ground (arith, sent-append i acts x, p.1 i, no_answer i))
                (Fits-emit produce_view t cs acts (s ∷ past) (λ i. one i a + owed acts past i) x
                  (λ i. (refl, refl)) begun),
            λ i. ground (arith, sent-append i acts x, p.1 i, no_answer i),
          )

      -- It is answered with an error at once.
      pub Produces-refuse :
          (d' : ProduceCallData) (r : ProduceReply)
          → produce_view d' ≡ (finish, false)
          → Produces (set cs a d') (acts ++ finish_produce a r ∷ []) (s ∷ past)
      Produces-refuse d' r e' =
          let x : Action = finish_produce a r in
          (
            Fits-waiting produce_view t (set cs a d') (acts ++ x ∷ []) (s ∷ past) (owed acts past)
                (owed (acts ++ x ∷ []) (s ∷ past))
                (λ i. ground (arith, sent-append i acts x, no_answer i))
                (Fits-finish produce_view t cs acts (s ∷ past) (λ i. one i a + owed acts past i) a d
                  at_a begun d' x (owed acts past) waits e' (λ i. (refl, refl)) (λ i. refl)),
            λ i. ground (arith, sent-append i acts x, p.1 i, no_answer i),
          )

    module _ (s : Step) (no_event : (i : ℕ) → handled t i s ≡ 0)
        (callback : (i : ℕ) → answered i s ≡ one i a)
        (waited_for : total (answered a) past < total (sent a) acts) where
      -- One callback less is waited for.
      abbrev OneLess : Action → ℕ → Type 0
      OneLess x i =
          (owed acts past i ≡ one i a + owed (acts ++ x ∷ []) (s ∷ past) i)
          × (total (answered i) (s ∷ past) ≤ total (sent i) (acts ++ x ∷ []))

      one_less : (x : Action) → ((i : ℕ) → sent i x ≡ 0) → (i : ℕ) → OneLess x i
      one_less x silent i = elim (ℕ_discrete i a) [
        | yes e ↦
            subst (OneLess x) (sym e)
              (ground (arith, sent-append a acts x, silent a, callback a, waited_for, p.1 a))
        | no ne ↦ ground (arith, sent-append i acts x, silent i, callback i, p.1 i, ne)
      ]

      -- The callback of a send comes, and ends the call.
      pub Produces-settle :
          (d' : ProduceCallData) (r : ProduceReply)
          → produce_view d' ≡ (finish, false)
          → Produces (set cs a d') (acts ++ finish_produce a r ∷ []) (s ∷ past)
      Produces-settle d' r e' =
          let x : Action = finish_produce a r in
          (
            Fits-past produce_view t (set cs a d') (acts ++ x ∷ []) past
                (owed (acts ++ x ∷ []) (s ∷ past)) s no_event
                (Fits-finish produce_view t cs acts past (owed acts past) a d at_a p.0 d' x
                  (owed (acts ++ x ∷ []) (s ∷ past)) waits e' (λ i. (refl, refl))
                  (λ i. (one_less x (λ j. refl) i).0)),
            λ i. (one_less x (λ j. refl) i).1,
          )

      -- The callback of a send comes, and the message is sent again.
      pub Produces-resend : (msg : MqMessage) → Produces cs (acts ++ send a msg ∷ []) (s ∷ past)
      Produces-resend msg =
          let x : Action = send a msg in
          (
            Fits-past produce_view t cs (acts ++ x ∷ []) past (owed (acts ++ x ∷ []) (s ∷ past)) s
                no_event
                (Fits-waiting produce_view t cs (acts ++ x ∷ []) past (owed acts past)
                  (owed (acts ++ x ∷ []) (s ∷ past))
                  (λ i. ground (arith, sent-append i acts x, p.1 i, callback i))
                  (Fits-emit produce_view t cs acts past (owed acts past) x (λ i. (refl, refl))
                    p.0)),
            λ i. ground (arith, sent-append i acts x, p.1 i, callback i),
          )
