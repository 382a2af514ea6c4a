-- ===== src/System/Alive/Counts.antt =====
-- The call objects of one kind against the operations that they have begun and the events that have
-- come for them.
use rocketmq_proxy.Prelude.{
  ℕ, suc, ◌≤◌, Bool, true, false, List, [], ◌∷◌, ◌++◌, Option, none, some, total, total-append,
  length, get_elem?, arith, ◌≡◌, ◌≢◌, get_elem?-append_new, sym, get_elem?-length, length-append,
  suc, ℕ_discrete, get_elem?-append_ne,
}
use mathlib.Core.Path.{subst}
use rocketmq_proxy.World.{CallStatus, create, process, finish, Action}
use rocketmq_proxy.Calls.{RequestType}
use rocketmq_proxy.System.{Step}
use rocketmq_proxy.System.Contract.{one, requested, finished, handled}

-- How many operations a call object has begun, how many events have come for it, and how many
-- things outside it still wait to answer it.
pub record Tally : Type 0 where
  pub requests : ℕ
  pub finishes : ℕ
  pub events : ℕ
  pub waiting : ℕ

-- What the tally of a call object is, by its status and by whether it is deleted. Before its answer
-- something waits to give it, once the request has come; when the event of the answer has come, the
-- object is deleted.
abbrev pub IsCall : Option (CallStatus × Bool) → Tally → Type 0
IsCall none t = (t.requests ≡ 0) × (t.finishes ≡ 0) × (t.events ≡ 0) × (t.waiting ≡ 0)
IsCall (some (create, deleted)) t = ⊥
IsCall (some (process, deleted)) t =
    (deleted ≡ false)
    × (t.requests ≡ 1)
    × (t.finishes ≡ 0)
    × (t.events ≡ t.waiting)
    × (t.events ≤ 1)
IsCall (some (finish, false)) t =
    (t.requests ≡ 1) × (t.finishes ≡ 1) × (t.events ≡ 1) × (t.waiting ≡ 0)
IsCall (some (finish, true)) t =
    (t.requests ≡ 1) × (t.finishes ≡ 1) × (t.events ≡ 2) × (t.waiting ≡ 0)

abbrev pub seen : {C : Type 0} → (C → CallStatus × Bool) → Option C → Option (CallStatus × Bool)
seen view none = none
seen view (some c) = some (view c)

-- The tally of a call object, with what waits for it as a function of its address.
abbrev pub tally : RequestType → List Action → List Step → (ℕ → ℕ) → ℕ → Tally
tally t acts past q a = record {
  requests = total (requested t a) acts;
  finishes = total (finished t a) acts;
  events = total (handled t a) past;
  waiting = q a;
}

module _ {C : Type 0} (view : C → CallStatus × Bool) (t : RequestType) where
  abbrev pub AllFit : List C → List Action → List Step → (ℕ → ℕ) → Type 0
  AllFit cs acts past q = (a : ℕ) → IsCall (seen view (get_elem? cs a)) (tally t acts past q a)

  -- The event of the last object's request has not come.
  abbrev pub LastAwaits : List C → List Step → Type 0
  LastAwaits cs past = (n : ℕ) × (length cs ≡ suc n) × (total (handled t n) past ≡ 0)

  -- All call objects of a kind fit their tallies, and the last of them awaits a request.
  pub record Fits (cs : List C) (acts : List Action) (past : List Step) (q : ℕ → ℕ) : Type 0 where
    pub fit : AllFit cs acts past q
    pub last : LastAwaits cs past

  -- One call object changes, with its tally, and the others stay as they were.
  pub AllFit-change :
      (cs cs' : List C) (acts acts' : List Action) (past past' : List Step) (q q' : ℕ → ℕ) (i : ℕ)
      → ((a : ℕ)
          → a ≢ i
          → (get_elem? cs' a ≡ get_elem? cs a) × (tally t acts' past' q' a ≡ tally t acts past q a))
      → IsCall (seen view (get_elem? cs' i)) (tally t acts' past' q' i)
      → AllFit cs acts past q
      → AllFit cs' acts' past' q'
  AllFit-change cs cs' acts acts' past past' q q' i others here f a = elim (ℕ_discrete a i) [
    | yes e ↦ rw e here
    | no ne ↦
        let (same_call, same_tally) = others a ne in
        rw (same_call) (subst (IsCall (seen view (get_elem? cs a))) (sym same_tally) (f a))
  ]

  -- The counts after one more action, which is no operation of the objects of this kind.
  pub Fits-emit :
      (cs : List C) (acts : List Action) (past : List Step) (q : ℕ → ℕ) (x : Action)
      → ((a : ℕ) → (requested t a x ≡ 0) × (finished t a x ≡ 0))
      → Fits cs acts past q
      → Fits cs (acts ++ x ∷ []) past q
  Fits-emit cs acts past q x silent f = record {
    fit = λ a.
        subst (IsCall (seen view (get_elem? cs a)))
          (ground (
            arith,
            silent a,
            total-append (requested t a) acts (x ∷ []),
            total-append (finished t a) acts (x ∷ []),
          ))
          (f.fit a);
    last = f.last;
  }

  -- A step that is no event of the objects of this kind.
  pub Fits-past :
      (cs : List C) (acts : List Action) (past : List Step) (q : ℕ → ℕ) (s : Step)
      → ((a : ℕ) → handled t a s ≡ 0)
      → Fits cs acts past q
      → Fits cs acts (s ∷ past) q
  Fits-past cs acts past q s silent f =
      let (n, size, none_yet) = f.last in
      record {
        fit = λ a. subst (IsCall (seen view (get_elem? cs a))) (ground (arith, silent a)) (f.fit a);
        last = (n, size, ground (arith, silent n, none_yet));
      }

  -- What waits is counted another way.
  pub Fits-waiting :
      (cs : List C) (acts : List Action) (past : List Step) (q q' : ℕ → ℕ)
      → ((a : ℕ) → q a ≡ q' a)
      → Fits cs acts past q
      → Fits cs acts past q'
  Fits-waiting cs acts past q q' same f = record {
    fit = λ a. subst (IsCall (seen view (get_elem? cs a))) (ground (arith, same a)) (f.fit a);
    last = f.last;
  }

  -- A new call object stands at the end, and has asked for its request.
  pub Fits-new :
      (cs : List C) (acts : List Action) (past : List Step) (q : ℕ → ℕ) (c : C) (x : Action)
      → view c ≡ (process, false)
      → ((a : ℕ) → (requested t a x ≡ one a (length cs)) × (finished t a x ≡ 0))
      → Fits cs acts past q
      → Fits (cs ++ c ∷ []) (acts ++ x ∷ []) past q
  Fits-new cs acts past q c x new asks f = record {
    fit =
        AllFit-change cs _ acts _ past past q q (length cs)
          (λ a ne. (
            get_elem?-append_ne cs c a ne,
            ground (
              arith,
              asks a,
              total-append (requested t a) acts (x ∷ []),
              total-append (finished t a) acts (x ∷ []),
            ),
          ))
          (rw (get_elem?-append_new cs c, new)
            (ground (
              arith,
              asks (length cs),
              before,
              total-append (requested t (length cs)) acts (x ∷ []),
              total-append (finished t (length cs)) acts (x ∷ []),
            )))
          f.fit;
    last = (length cs, omega (arith, length-append cs (c ∷ [])), before.2);
  }
    where
      before : IsCall none (tally t acts past q (length cs))
      before =
          subst (λ o. IsCall (seen view o) (tally t acts past q (length cs))) (get_elem?-length cs)
            (f.fit (length cs))
