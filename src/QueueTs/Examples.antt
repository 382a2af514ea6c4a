-- ===== src/QueueTs/Examples.antt =====
-- Instances of the queue's theorems, and tests.
use rocketmq_proxy.Prelude.{ℕ, List, [], ◌∷◌, ◌++◌, ◌≡◌, refl}
use rocketmq_proxy.QueueTs.{Op, pushes, pops, run, of_range, push, try_pop}
use rocketmq_proxy.QueueTs.Fifo.{run-fifo}

abbrev calls : List (Op ℕ)
calls = pops ∷ pushes 7 ∷ pops ∷ pops ∷ pops ∷ pushes 9 ∷ []

run-calls : (run (of_range (1 ∷ 2 ∷ [])) calls).0 ≡ 1 ∷ 2 ∷ 7 ∷ []
unfolding run of_range push try_pop
run-calls = refl

run-fifo_example :
    (run (of_range (1 ∷ 2 ∷ [])) calls).0 ++ (run (of_range (1 ∷ 2 ∷ [])) calls).1.data_queue
    ≡ 1 ∷ 2 ∷ 7 ∷ 9 ∷ []
unfolding of_range
run-fifo_example = run-fifo (of_range (1 ∷ 2 ∷ [])) calls
