-- ===== src/MapTs/Examples.antt =====
-- Instances of the map's theorems, and tests.
use rocketmq_proxy.Prelude.{
  ℕ, List, [], ◌∷◌, ◌≡◌, refl, ◌+◌, Bytes, bytes, none, bytes_less, same, lex_less, length, ◌*◌,
}
use rocketmq_proxy.StdMap
use rocketmq_proxy.MapTs.{
  Op, inserts, updates, erases, run, new, try_get, insert, insert_or_update, erase,
  get_all_keys_times, size,
}
use rocketmq_proxy.MapTs.Spec.{try_get-run, spec}
use rocketmq_proxy.MapTs.Keys.{length-get_all_keys_times}

abbrev calls : List (Op Bytes ℕ)
calls =
    inserts (bytes "b") 1
    ∷ inserts (bytes "a") 2
    ∷ inserts (bytes "b") 3
    ∷ updates (bytes "a") 4
    ∷ erases (bytes "c")
    ∷ []

run-calls : (run new calls).the_map ≡ (bytes "a", 4) ∷ (bytes "b", 1) ∷ []
unfolding run new insert insert_or_update erase StdMap.find StdMap.place StdMap.overwrite
    StdMap.insert StdMap.assign StdMap.erase same lex_less
run-calls = refl

try_get-run_example : try_get (run new calls) (bytes "b") ≡ spec (λ _. none) calls (bytes "b")
try_get-run_example = try_get-run calls (bytes "b")

length-get_all_keys_times_example :
    length (get_all_keys_times 3 (run new calls) []) ≡ 0 + 3 * size (run new calls)
length-get_all_keys_times_example = length-get_all_keys_times 3 (run new calls) []
