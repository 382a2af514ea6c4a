-- ===== src/MapTs/Keys.antt =====
-- The vector that `getAllKeys` fills.
use rocketmq_proxy.Prelude.{
  ℕ, zero, suc, ◌+◌, ◌*◌, List, [], ◌∷◌, arith, ◌≡◌, refl, length, length-append,
}
use rocketmq_proxy.StdMap.{keys, Map}
use rocketmq_proxy.MapTs.{MapTs, get_all_keys, get_all_keys_times, size}

module _ {ℓ κ} {K : Type ℓ} {T : Type κ} where
  length-keys : (m : Map K T) → length (keys m) ≡ length m
  length-keys [] = refl
  length-keys (e ∷ m) = omega (arith, length-keys m)

  -- A caller that passes the same vector `n` times, on a map that stays as it is, holds `n` times
  -- as many entries as the map has, behind those that it began with: the vector is never cleared.
  pub length-get_all_keys_times :
      (n : ℕ) (m : MapTs K T) (ks : List K)
      → length (get_all_keys_times n m ks) ≡ length ks + n * size m
  unfolding get_all_keys_times get_all_keys size
  length-get_all_keys_times zero m ks = omega arith
  length-get_all_keys_times (suc n) m ks = omega (
    arith,
    length-get_all_keys_times n m (get_all_keys m ks),
    length-append ks (keys m.the_map),
    length-keys m.the_map,
  )
