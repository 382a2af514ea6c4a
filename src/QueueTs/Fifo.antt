-- ===== src/QueueTs/Fifo.antt =====
-- The queue is first in, first out, whatever the threads' calls and their order.
use rocketmq_proxy.Prelude.{List, [], ◌∷◌, ◌++◌, ◌≡◌, ap, sym, ◌∙◌, append_assoc, append-nil}
use rocketmq_proxy.QueueTs.{
  QueueTs, new, push, push_all, of_range, try_pop, Op, pushes, pops, run, pushed,
}

module _ {ℓ} {A : Type ℓ} where
  run_fifo :
      (xs : List A) (ops : List (Op A))
      → (run (record { data_queue = xs }) ops).0
          ++ (run (record { data_queue = xs }) ops).1.data_queue
        ≡ xs ++ pushed ops
  unfolding run push try_pop
  run_fifo xs [] = sym (append-nil xs)
  run_fifo xs (pushes x ∷ ops) = run_fifo (xs ++ x ∷ []) ops ∙ append_assoc xs (x ∷ []) (pushed ops)
  run_fifo [] (pops ∷ ops) = run_fifo [] ops
  run_fifo (x ∷ xs) (pops ∷ ops) = ap (◌∷◌ x) (run_fifo xs ops)

  -- For every sequence of calls of `push` and `try_pop`, in whatever order the threads make them,
  -- the values handed out, followed by those still in the queue, are those that were in the
  -- queue at the start followed by those pushed, in that order.
  pub run-fifo :
      (q : QueueTs A) (ops : List (Op A))
      → (run q ops).0 ++ (run q ops).1.data_queue ≡ q.data_queue ++ pushed ops
  run-fifo q ops = run_fifo q.data_queue ops

  push_all_lem : (q : QueueTs A) (xs : List A) → (push_all q xs).data_queue ≡ q.data_queue ++ xs
  unfolding push_all push
  push_all_lem q [] = sym (append-nil q.data_queue)
  push_all_lem q (x ∷ xs) = push_all_lem (push q x) xs ∙ append_assoc q.data_queue (x ∷ []) xs

  pub of_range_lem : (xs : List A) → (of_range xs).data_queue ≡ xs
  unfolding of_range
  of_range_lem xs = push_all_lem new xs
