-- ===== src/QueueTs.antt =====
-- QueueTS.hpp. Each method holds `mut` from its first line to its last, so it is one step; the
-- front of `data_queue` is the head of the list. A call that blocks has the result `none`.
pub mod Fifo
pub mod Examples
use rocketmq_proxy.Prelude.{ℕ, Bool, true, false, List, [], ◌∷◌, ◌++◌, Option, none, some, length}

pub record QueueTs {ℓ} (A : Type ℓ) : Type ℓ where
  pub data_queue : List A

-- `std::queue::empty`.
abbrev pub is_empty {ℓ} : {A : Type ℓ} → List A → Bool
is_empty [] = true
is_empty (x ∷ xs) = false

module _ {ℓ} {A : Type ℓ} where
  unfoldable pub new : QueueTs A
  new = record { data_queue = [] }

  unfoldable pub push : QueueTs A → A → QueueTs A
  push q new_value = record { data_queue = q.data_queue ++ new_value ∷ [] }

  -- The constructor from a range of iterators: the loop pushes each entry.
  pub push_all : QueueTs A → List A → QueueTs A
  push_all q [] = q
  push_all q (x ∷ xs) = push_all (push q x) xs

  unfoldable pub of_range : List A → QueueTs A
  unfolding push_all new push
  of_range xs = push_all new xs

  -- `front` and `pop` of a queue; the value is moved out.
  abbrev pub take_front : List A → Option (A × QueueTs A)
  take_front [] = none
  take_front (x ∷ xs) = some (x, record { data_queue = xs })

  -- `false` is `none`: the queue and the reference `value` are left as they were.
  unfoldable pub try_pop : QueueTs A → Option (A × QueueTs A)
  try_pop q = take_front q.data_queue

  -- While the queue is empty the caller waits on `data_cond`.
  unfoldable pub wait_and_pop : QueueTs A → Option (A × QueueTs A)
  wait_and_pop q = take_front q.data_queue

  unfoldable pub empty : QueueTs A → Bool
  empty q = is_empty q.data_queue

  unfoldable pub size : QueueTs A → ℕ
  size q = length q.data_queue

-- A call of one of the threads that share a queue.
pub data Op {ℓ} (A : Type ℓ) : Type ℓ where
  pushes : A → Op A
  pops : Op A

-- The values that the calls of `try_pop` hand out, and the queue at the end.
pub run {ℓ} : {A : Type ℓ} → QueueTs A → List (Op A) → List A × QueueTs A
run q [] = ([], q)
run q (pushes x ∷ ops) = run (push q x) ops
run q (pops ∷ ops) = elim (try_pop q) [
  | none ↦ run q ops
  | some (x, q') ↦ let (out, end) = run q' ops in (x ∷ out, end)
]

abbrev pub pushed {ℓ} : {A : Type ℓ} → List (Op A) → List A
pushed [] = []
pushed (pushes x ∷ ops) = x ∷ pushed ops
pushed (pops ∷ ops) = pushed ops
