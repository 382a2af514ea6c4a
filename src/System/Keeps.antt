-- ===== src/System/Keeps.antt =====
-- Rules by which a step keeps what is to last (System/Lasting).
use rocketmq_proxy.Prelude.{
  ℕ, Bool, true, false, if◌then◌else◌, [], ◌∷◌, ◌++◌, Option, none, some, get_elem?, ◌≡◌,
  All-append, All-set, All-get, refl,
}
use rocketmq_proxy.Consumer.{ConsumerUnit}
use rocketmq_proxy.World.{
  World, M, Result, ok, fault, Fault, pure, stop, ◌>>=◌, read, modify, follow, deref, emit, Action,
}
use rocketmq_proxy.Worker.{set_consumer_unit}
use rocketmq_proxy.System.Lasting.{Lasting, is_plain, UnitHolds, Holds, ValidAfter}

-- If the step does not end the process, it keeps what holds.
pub record Keeps (L : Lasting) {A : Type 0} (m : M A) : Type 0 where
  pub after : (w : World) → Holds L w → ValidAfter L (m w)

module _ {L : Lasting} where
  pub Keeps-pure : {A : Type 0} (a : A) → Keeps L (pure a)
  Keeps-pure a = record { after = λ w v. v }

  pub Keeps-stop : (A : Type 0) (e : Fault) → Keeps L {A = A} (stop e)
  Keeps-stop A e = record { after = λ w v. tt }

  pub Keeps-bind :
      {A B : Type 0} (m : M A) (f : A → M B)
      → Keeps L m
      → ((a : A) → Keeps L (f a))
      → Keeps L (m >>= f)
  Keeps-bind {A = A} {B = B} m f h k = record { after = λ w v. by_outcome (m w) (h.after w v) }
    where
      by_outcome :
          (r : Result (A × World))
          → ValidAfter L r
          → ValidAfter L (elim r [ fault e ↦ fault e | ok (a, w') ↦ f a w' ])
      by_outcome (fault e) v' = tt
      by_outcome (ok (a, w')) v' = (k a).after w' v'

  pub Keeps-read : {A : Type 0} (f : World → A) → Keeps L (read f)
  Keeps-read f = record { after = λ w v. v }

  pub Keeps-modify :
      (f : World → World)
      → ((w : World) → (f w).consumer_units ≡ w.consumer_units)
      → ((w : World) → (f w).actions ≡ w.actions)
      → Keeps L (modify f)
  Keeps-modify f same_units same_actions = record {
    after = λ w v. (rw (same_units w) v.0, rw (same_actions w) v.1);
  }

  pub Keeps-follow : {A : Type 0} (o : Option A) → Keeps L (follow o)
  Keeps-follow none = record { after = λ w v. tt }
  Keeps-follow (some a) = record { after = λ w v. v }

  pub Keeps-deref : (o : Option ℕ) → Keeps L (deref o)
  Keeps-deref none = record { after = λ w v. tt }
  Keeps-deref (some a) = record { after = λ w v. v }

  pub Keeps-emit : (x : Action) → L.Right x → Keeps L (emit x)
  Keeps-emit x right = record {
    after = λ w v. (v.0, All-append L.Right w.actions (x ∷ []) v.1 (right, tt));
  }

  pub Keeps-emit_plain : (x : Action) → is_plain x ≡ true → Keeps L (emit x)
  Keeps-emit_plain x plain = Keeps-emit x (L.plain-Right x plain)

  pub Keeps-set_consumer_unit :
      (k : ℕ) (u : ConsumerUnit) → UnitHolds L u → Keeps L (set_consumer_unit k u)
  Keeps-set_consumer_unit k u valid = record {
    after = λ w v. (All-set (UnitHolds L) w.consumer_units k u v.0 valid, v.1);
  }

  -- A unit that is read is valid, so what goes on with it may rely on that.
  pub Keeps-unit :
      {A : Type 0} (k : ℕ) (f : ConsumerUnit → M A)
      → ((u : ConsumerUnit) → UnitHolds L u → Keeps L (f u))
      → Keeps L (do found ← read (λ w. get_elem? w.consumer_units k); u ← follow found; f u)
  Keeps-unit {A = A} k f h = record {
    after = λ w v.
        by_found w v (get_elem? w.consumer_units k)
          (λ u e. All-get (UnitHolds L) w.consumer_units k u v.0 e);
  }
    where
      by_found :
          (w : World)
          → Holds L w
          → (found : Option ConsumerUnit) → ((u : ConsumerUnit) → found ≡ some u → UnitHolds L u)
          → ValidAfter L ((do u ← follow found; f u) w)
      by_found w v none valid = tt
      by_found w v (some u) valid = (h u (valid u refl)).after w v

  pub Keeps-if :
      {A : Type 0} (c : Bool) (m n : M A) → Keeps L m → Keeps L n → Keeps L (if c then m else n)
  Keeps-if true m n h k = h
  Keeps-if false m n h k = k

pub ruleset keeps = (
  Keeps-pure, Keeps-stop, Keeps-bind, Keeps-read, Keeps-follow, Keeps-deref, Keeps-emit_plain,
  Keeps-modify, Keeps-if, refl,
)
