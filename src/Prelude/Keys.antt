-- ===== src/Prelude/Keys.antt =====
-- `std::less` on the key types of the program's maps: pointers (addresses) and byte strings.
use Prim.Native.Nat.{ℕ}
use mathlib.Core.Path.{◌≡◌, refl}
use mathlib.Core.Logic.{◌↔◌}
use mathlib.Core.Bool.{Bool, true, false}
use mathlib.Core.List.{[], ◌∷◌}
use native.Mathlib.Omega.{arith}
use rocketmq_proxy.Prelude.Tests.{ltb, if◌then◌else◌}
use rocketmq_proxy.Prelude.Lists.{Bytes}

-- A strict total order by a Boolean test.
pub record Less {ℓ} (K : Type ℓ) : Type ℓ where
  pub less : K → K → Bool
  pub less_irrefl : (a : K) → less a a ≡ false
  pub less_trans : (a b c : K) → less a b ≡ true → less b c ≡ true → less a c ≡ true
  pub less_connex : (a b : K) → less a b ≡ false → less b a ≡ false → a ≡ b

-- `!less(a, b) && !less(b, a)`: the equivalence of a map's keys.
unfoldable pub same {ℓ} : {K : Type ℓ} ⦃o : Less K⦄ → K → K → Bool
same ⦃o⦄ a b = if o.less a b then false else if o.less b a then false else true

pub same_iff {ℓ} : {K : Type ℓ} ⦃o : Less K⦄ (a b : K) → (same a b ≡ true) ↔ (a ≡ b)
unfolding same
same_iff ⦃o⦄ a b =
    (λ h. o.less_connex a b (ground arith) (ground arith), λ e. rw (e, o.less_irrefl b) refl)

pub same_refl {ℓ} : {K : Type ℓ} ⦃o : Less K⦄ (a : K) → same a a ≡ true
same_refl a = (same_iff a a).1 refl

pub ltb_irrefl : (a : ℕ) → ltb a a ≡ false
ltb_irrefl a = ground arith

pub ltb_trans : (a b c : ℕ) → ltb a b ≡ true → ltb b c ≡ true → ltb a c ≡ true
ltb_trans a b c h k = ground arith

pub ltb_connex : (a b : ℕ) → ltb a b ≡ false → ltb b a ≡ false → a ≡ b
ltb_connex a b h k = ground arith

instance abbrev pub nat_less : Less ℕ
nat_less = record {
  less = ltb;
  less_irrefl = ltb_irrefl;
  less_trans = ltb_trans;
  less_connex = ltb_connex;
}

-- `std::string`'s order: by the first byte that differs, a prefix first.
unfoldable pub lex_less : Bytes → Bytes → Bool
lex_less [] [] = false
lex_less [] (y ∷ ys) = true
lex_less (x ∷ xs) [] = false
lex_less (x ∷ xs) (y ∷ ys) = if ltb x y then true else if ltb y x then false else lex_less xs ys

pub lex_less_irrefl : (a : Bytes) → lex_less a a ≡ false
unfolding lex_less
lex_less_irrefl [] = refl
lex_less_irrefl (x ∷ xs) = ground (arith, lex_less_irrefl xs)

pub lex_less_trans :
    (a b c : Bytes) → lex_less a b ≡ true → lex_less b c ≡ true → lex_less a c ≡ true
unfolding lex_less
lex_less_trans [] [] c h k = cc
lex_less_trans (x ∷ xs) [] c h k = cc
lex_less_trans a (y ∷ ys) [] h k = cc
lex_less_trans [] (y ∷ ys) (z ∷ zs) h k = refl
lex_less_trans (x ∷ xs) (y ∷ ys) (z ∷ zs) h k = ground (arith, lex_less_trans xs ys zs)

pub lex_less_connex : (a b : Bytes) → lex_less a b ≡ false → lex_less b a ≡ false → a ≡ b
unfolding lex_less
lex_less_connex [] [] h k = refl
lex_less_connex [] (y ∷ ys) h k = cc
lex_less_connex (x ∷ xs) [] h k = cc
lex_less_connex (x ∷ xs) (y ∷ ys) h k = ground (arith, lex_less_connex xs ys)

instance abbrev pub bytes_less : Less Bytes
bytes_less = record {
  less = lex_less;
  less_irrefl = lex_less_irrefl;
  less_trans = lex_less_trans;
  less_connex = lex_less_connex;
}
