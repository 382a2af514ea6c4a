-- ===== src/System/Alive/Changes.antt =====
-- One call object changes, with its tally.
use rocketmq_proxy.Prelude.{
  ℕ, suc, ◌+◌, ◌<◌, Bool, true, false, List, [], ◌∷◌, ◌++◌, some, total, total-append, length,
  get_elem?, set, arith, ◌≡◌, ◌≢◌, refl, get_elem?-set_self, get_elem?-set_ne, sym, length-set, ◌∙◌,
  suc, ◌<◌, ℕ_discrete,
}
use mathlib.Core.Path.{subst}
use rocketmq_proxy.World.{CallStatus, process, finish, Action}
use rocketmq_proxy.Calls.{RequestType}
use rocketmq_proxy.System.{Step}
use rocketmq_proxy.System.Contract.{one, requested, finished, handled}
use rocketmq_proxy.System.Alive.Counts.{IsCall, seen, tally, Fits, AllFit-change}

module _ {C : Type 0} (view : C → CallStatus × Bool) (t : RequestType) where
  module _ (cs : List C) (acts : List Action) (past : List Step) (q : ℕ → ℕ) (i : ℕ) (c : C)
      (at_i : get_elem? cs i ≡ some c) (f : Fits view t cs acts past q) where
    -- What is known of a call object that is there.
    pub fit_at : (s : CallStatus × Bool) → view c ≡ s → IsCall (some s) (tally t acts past q i)
    fit_at s e =
        subst (λ x. IsCall (some x) (tally t acts past q i)) e
          (subst (λ o. IsCall (seen view o) (tally t acts past q i)) at_i (f.fit i))

    -- A change of a call object and of its tally.
    Fits-set :
        (c' : C) (acts' : List Action) (past' : List Step) (q' : ℕ → ℕ) (s' : CallStatus × Bool)
        → view c' ≡ s'
        → ((a : ℕ) → a ≢ i → tally t acts' past' q' a ≡ tally t acts past q a)
        → IsCall (some s') (tally t acts' past' q' i)
        → ((n : ℕ)
            → length cs ≡ suc n
            → total (handled t n) past ≡ 0
            → total (handled t n) past' ≡ 0)
        → Fits view t (set cs i c') acts' past' q'
    Fits-set c' acts' past' q' s' e others here still =
        let (n, size, none_yet) = f.last in
        record {
          fit =
              AllFit-change view t cs (set cs i c') acts acts' past past' q q' i
                (λ a ne. (get_elem?-set_ne cs i a c' (λ e'. ne (sym e')), others a ne))
                (rw (get_elem?-set_self cs i c' c at_i, e) here) f.fit;
          last = (n, length-set cs i c' ∙ size, still n size none_yet);
        }

    -- A change that no count sees.
    pub Fits-edit : (c' : C) → view c' ≡ view c → Fits view t (set cs i c') acts past q
    Fits-edit c' e =
        Fits-set c' acts past q (view c) e (λ a ne. refl) (fit_at (view c) refl) (λ n size z. z)

    -- The event of a request comes, and something will answer it.
    pub Fits-begin :
        (c' : C) (s : Step) (q' : ℕ → ℕ)
        → view c ≡ (process, false)
        → view c' ≡ (process, false)
        → ((a : ℕ) → handled t a s ≡ one a i)
        → total (handled t i) past ≡ 0
        → suc i < length cs
        → ((a : ℕ) → q' a ≡ one a i + q a)
        → Fits view t (set cs i c') acts (s ∷ past) q'
    Fits-begin c' s q' e e' event first older more =
        Fits-set c' acts (s ∷ past) q' (process, false) e' (λ a ne. ground (arith, event a, more a))
          (ground (arith, event i, more i, fit_at (process, false) e))
          (λ n size z. ground (arith, event n, size, z, older))

    -- What waited answers the call.
    pub Fits-finish :
        (c' : C) (x : Action) (q' : ℕ → ℕ)
        → view c ≡ (process, false)
        → view c' ≡ (finish, false)
        → ((a : ℕ) → (finished t a x ≡ one a i) × (requested t a x ≡ 0))
        → ((a : ℕ) → q a ≡ one a i + q' a)
        → Fits view t (set cs i c') (acts ++ x ∷ []) past q'
    Fits-finish c' x q' e e' ends less =
        Fits-set c' (acts ++ x ∷ []) past q' (finish, false) e'
          (λ a ne. ground (
            arith,
            ends a,
            less a,
            total-append (requested t a) acts (x ∷ []),
            total-append (finished t a) acts (x ∷ []),
          ))
          (ground (
            arith,
            ends i,
            less i,
            fit_at (process, false) e,
            total-append (requested t i) acts (x ∷ []),
            total-append (finished t i) acts (x ∷ []),
          ))
          (λ n size z. z)

    -- The event of the answer comes, and the object is deleted.
    pub Fits-end :
        (c' : C) (s : Step)
        → view c ≡ (finish, false)
        → view c' ≡ (finish, true)
        → ((a : ℕ) → handled t a s ≡ one a i)
        → Fits view t (set cs i c') acts (s ∷ past) q
    Fits-end c' s e e' event =
        Fits-set c' acts (s ∷ past) q (finish, true) e' (λ a ne. ground (arith, event a))
          (ground (arith, event i, fit_at (finish, false) e))
          (λ n size z. elim (ℕ_discrete n i) [
            | yes same ↦
                let mine = fit_at (finish, false) e in
                let here : total (handled t i) past ≡ 0 =
                  subst (λ j. total (handled t j) past ≡ 0) same z in
                absurd (omega arith)
            | no ne ↦ ground (arith, event n, z, ne)
          ])
