-- ===== src/System/Alive/Pool.antt =====
-- The requests in the matcher's pool, and the units that the map of delivered messages leads to.
use rocketmq_proxy.Prelude.{
  ℕ, ◌+◌, ◌<◌, true, false, List, [], ◌∷◌, ◌++◌, Option, none, some, total, total-append, length,
  get_elem?, set, arith, ◌≡◌, refl, ap, ap₂, ◌⊎◌, inl, inr, get_elem?-set_self, get_elem?-set_ne,
  get_elem?-append_new, sym, All, All-mono, All-append, ℕ_discrete, length-append,
  get_elem?-append_old, get_elem?-lt, ◌∙◌,
}
use rocketmq_proxy.World.{ConsumeMsgUnit, is_init}
use rocketmq_proxy.System.Contract.{one}

-- Whether a unit waits to answer the call at an address.
abbrev pub waits : ConsumeMsgUnit → ℕ → ℕ
waits unit a = elim (is_init unit.status) [ true ↦ one a unit.call_data | false ↦ 0 ]

abbrev pub waits? : Option ConsumeMsgUnit → ℕ → ℕ
waits? none a = 0
waits? (some unit) a = waits unit a

abbrev pub waits_at : List ConsumeMsgUnit → ℕ → ℕ → ℕ
waits_at units a p = waits? (get_elem? units p) a

-- How many units of the pool wait to answer the call at an address.
abbrev pub waiting : List ConsumeMsgUnit → List ℕ → ℕ → ℕ
waiting units pool a = total (waits_at units a) pool

-- Every address of the pool is that of a unit.
abbrev pub InRange : List ConsumeMsgUnit → List ℕ → Type 0
InRange units = All (λ p. p < length units)

pub InRange-same :
    (units units' : List ConsumeMsgUnit) (pool : List ℕ)
    → length units' ≡ length units
    → InRange units pool
    → InRange units' pool
InRange-same units units' pool e = All-mono _ _ pool (λ p h. omega arith)

pub InRange-new :
    (units : List ConsumeMsgUnit) (u : ConsumeMsgUnit) (pool : List ℕ)
    → InRange units pool
    → InRange (units ++ u ∷ []) (pool ++ length units ∷ [])
InRange-new units u pool h =
    All-append _ pool (length units ∷ [])
      (All-mono _ _ pool (λ p k. omega (arith, length-append units (u ∷ []))) h)
      (omega (arith, length-append units (u ∷ [])), tt)

-- A new unit goes to the pool.
waits_at-append :
    (units : List ConsumeMsgUnit) (u : ConsumeMsgUnit) (a p : ℕ)
    → p < length units
    → waits_at (units ++ u ∷ []) a p ≡ waits_at units a p
waits_at-append units u a p h =
    let (x, there) = get_elem?-lt units p h in
    ap (λ o. waits? o a) (get_elem?-append_old units (u ∷ []) p x there ∙ sym there)

pub waiting-new :
    (units : List ConsumeMsgUnit) (u : ConsumeMsgUnit) (pool : List ℕ) (a : ℕ)
    → InRange units pool
    → waiting (units ++ u ∷ []) (pool ++ length units ∷ []) a ≡ waits u a + waiting units pool a
waiting-new units u [] a h = ap (λ o. waits? o a + 0) (get_elem?-append_new units u)
waiting-new units u (p ∷ pool) a h =
    omega (arith, waits_at-append units u a p h.0, waiting-new units u pool a h.1)

-- A unit goes to the end of the pool.
pub waiting-rotate :
    (units : List ConsumeMsgUnit) (p : ℕ) (pool : List ℕ) (a : ℕ)
    → waiting units (p ∷ pool) a ≡ waiting units (pool ++ p ∷ []) a
waiting-rotate units p pool a = omega (arith, total-append (waits_at units a) pool (p ∷ []))

pub InRange-rotate :
    (units : List ConsumeMsgUnit) (p : ℕ) (pool : List ℕ)
    → InRange units (p ∷ pool)
    → InRange units (pool ++ p ∷ [])
InRange-rotate units p pool h = All-append _ pool (p ∷ []) h.1 (h.0, tt)

-- A unit that waits no longer; for a call for which nothing waited, nothing does then.
module _ (units : List ConsumeMsgUnit) (p : ℕ) (u u' : ConsumeMsgUnit)
    (at_p : get_elem? units p ≡ some u) (over : is_init u'.status ≡ false) where
  waits_at-set :
      (a i : ℕ)
      → (waits u a ≡ 0) ⊎ (waits_at units a i ≡ 0)
      → waits_at (set units p u') a i ≡ waits_at units a i
  waits_at-set a i h = elim (ℕ_discrete i p) [
    | yes e ↦
        ap (waits_at (set units p u') a) e
        ∙ ap (λ o. waits? o a) (get_elem?-set_self units p u' u at_p)
        ∙ ground (arith, over, was_zero e h)
        ∙ sym (ap (λ o. waits? o a) at_p)
        ∙ sym (ap (waits_at units a) e)
    | no ne ↦ ap (λ o. waits? o a) (get_elem?-set_ne units p i u' (λ e. ne (sym e)))
  ]
    where
      was_zero : i ≡ p → (waits u a ≡ 0) ⊎ (waits_at units a i ≡ 0) → waits u a ≡ 0
      was_zero e (inl z) = z
      was_zero e (inr z) = sym (ap (λ o. waits? o a) at_p) ∙ sym (ap (waits_at units a) e) ∙ z

  pub waiting-set :
      (pool : List ℕ) (a : ℕ)
      → (waits u a ≡ 0) ⊎ (waiting units pool a ≡ 0)
      → waiting (set units p u') pool a ≡ waiting units pool a
  waiting-set [] a h = refl
  waiting-set (i ∷ pool) a (inl z) = ap₂ ◌+◌ (waits_at-set a i (inl z)) (waiting-set pool a (inl z))
  waiting-set (i ∷ pool) a (inr z) =
      ap₂ ◌+◌ (waits_at-set a i (inr (omega arith))) (waiting-set pool a (inr (omega arith)))

-- A unit that is there and waits for no message.
abbrev pub IsSettled : List ConsumeMsgUnit → ℕ → Type 0
IsSettled units p = (u : ConsumeMsgUnit) × (get_elem? units p ≡ some u) × (is_init u.status ≡ false)

pub append-IsSettled :
    (units : List ConsumeMsgUnit) (u : ConsumeMsgUnit) (p : ℕ)
    → IsSettled units p
    → IsSettled (units ++ u ∷ []) p
append-IsSettled units u p (x, there, over) =
    (x, get_elem?-append_old units (u ∷ []) p x there, over)

pub set-IsSettled :
    (units : List ConsumeMsgUnit) (i p : ℕ) (u' : ConsumeMsgUnit)
    → is_init u'.status ≡ false
    → IsSettled units p
    → IsSettled (set units i u') p
set-IsSettled units i p u' over' (x, there, over) = elim (ℕ_discrete p i) [
  | yes e ↦ rw e (u', get_elem?-set_self units i u' x (rw (← e) there), over')
  | no ne ↦ (x, get_elem?-set_ne units i p u' (λ e. ne (sym e)) ∙ there, over)
]
