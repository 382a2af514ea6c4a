-- ===== src/System/Alive/Found.antt =====
-- Which call object an event, an answer or a request is for.
use mathlib.Core.Path.{subst}
use rocketmq_proxy.Prelude.{
  ℕ, ◌+◌, ◌≤◌, ◌<◌, Bool, true, false, List, none, some, total, get_elem?, arith, ◌≡◌, refl, ◌⊎◌,
  inl, inr, Option-cases,
}
use rocketmq_proxy.World.{CallStatus, create, process, finish, Action}
use rocketmq_proxy.Calls.{RequestType}
use rocketmq_proxy.System.{Step}
use rocketmq_proxy.System.Contract.{requested, finished, handled}
use rocketmq_proxy.System.Alive.Counts.{IsCall, Fits, tally, Tally, seen}
use rocketmq_proxy.System.Alive.Changes.{fit_at}

module _ {C : Type 0} (view : C → CallStatus × Bool) (t : RequestType) (cs : List C)
    (acts : List Action) (past : List Step) (q : ℕ → ℕ) (i : ℕ)
    (f : Fits view t cs acts past q) where
  -- The call object at an address, in a state.
  abbrev pub At : CallStatus × Bool → Type 0
  At s = (c : C) × (get_elem? cs i ≡ some c) × (view c ≡ s)

  abbrev mine : Tally
  mine = tally t acts past q i

  by_view :
      (c : C) (s : CallStatus × Bool)
      → get_elem? cs i ≡ some c
      → view c ≡ s
      → IsCall (some s) mine
      → (At (process, false) × IsCall (some (process, false)) mine)
        ⊎ ((At (finish, false) × IsCall (some (finish, false)) mine)
            ⊎ IsCall (some (finish, true)) mine)
  by_view c (create, deleted) at_i e h = absurd h
  by_view c (process, true) at_i e h = absurd (cc)
  by_view c (process, false) at_i e h = inl ((c, at_i, e), h)
  by_view c (finish, false) at_i e h = inr (inl ((c, at_i, e), h))
  by_view c (finish, true) at_i e h = inr (inr h)

  cases :
      IsCall none mine
      ⊎ ((At (process, false) × IsCall (some (process, false)) mine)
          ⊎ ((At (finish, false) × IsCall (some (finish, false)) mine)
              ⊎ IsCall (some (finish, true)) mine))
  cases = elim (Option-cases (get_elem? cs i)) [
    | inl missing ↦ inl (subst (λ o. IsCall (seen view o) mine) missing (f.fit i))
    | inr (c, at_i) ↦
        inr (by_view c (view c) at_i refl (fit_at view t cs acts past q i c at_i f (view c) refl))
  ]

  -- An event that may come is that of a request, or that of an answer.
  pub find_event :
      total (handled t i) past < total (requested t i) acts + total (finished t i) acts
      → (At (process, false) × (total (handled t i) past ≡ 0)) ⊎ At (finish, false)
  find_event h = elim cases [
    | inl zero ↦ absurd (omega arith)
    | inr (inl (c, k)) ↦ inl (c, omega arith)
    | inr (inr (inl (c, k))) ↦ inr c
    | inr (inr (inr k)) ↦ absurd (omega arith)
  ]

  -- An event that may fail is that of an answer.
  pub find_answer :
      total (requested t i) acts ≤ total (handled t i) past
      → total (handled t i) past < total (requested t i) acts + total (finished t i) acts
      → At (finish, false)
  find_answer g h = elim cases [
    | inl zero ↦ absurd (omega arith)
    | inr (inl (c, k)) ↦ absurd (omega arith)
    | inr (inr (inl (c, k))) ↦ c
    | inr (inr (inr k)) ↦ absurd (omega arith)
  ]

  -- A request comes for an object that awaits it.
  pub find_request : total (handled t i) past < total (requested t i) acts → At (process, false)
  find_request h = elim cases [
    | inl zero ↦ absurd (omega arith)
    | inr (inl (c, k)) ↦ c
    | inr (inr (inl (c, k))) ↦ absurd (omega arith)
    | inr (inr (inr k)) ↦ absurd (omega arith)
  ]

  -- What waits to give an answer has a call object that can take it, and nothing else waits for it.
  pub find_waiting : 0 < q i → At (process, false) × (q i ≡ 1)
  find_waiting h = elim cases [
    | inl zero ↦ absurd (omega arith)
    | inr (inl (c, k)) ↦ (c, omega arith)
    | inr (inr (inl (c, k))) ↦ absurd (omega arith)
    | inr (inr (inr k)) ↦ absurd (omega arith)
  ]
