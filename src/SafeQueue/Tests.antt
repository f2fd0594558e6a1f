-- ===== src/SafeQueue/Tests.antt =====
-- A history of src/SafeQueue.cc with room for one element.
use mvtx.Prelude.{ℕ, ◌≤◌, ◌≡◌, refl, List, [], ◌∷◌, ◌++◌, arith, length}
use mvtx.SafeQueue.{
  SafeQueue, Steps, done, put, take, poll_empty, enqueue, dequeue, try_dequeue, Steps-fifo,
}

abbrev empty_queue : SafeQueue
empty_queue = record { max_size = 1; queue = [] }

abbrev last_queue : SafeQueue
last_queue = record { max_size = 1; queue = 8 ∷ [] }

abbrev both : List ℕ
both = 7 ∷ 8 ∷ []

abbrev first : List ℕ
first = 7 ∷ []

one_each : Steps empty_queue both first last_queue
unfolding enqueue dequeue try_dequeue
one_each = poll_empty refl (put refl (take refl (put refl done)))

Steps-fifo_example :
    (empty_queue.queue ++ both ≡ first ++ last_queue.queue)
    × (length last_queue.queue ≤ last_queue.max_size)
    × (last_queue.max_size ≡ empty_queue.max_size)
Steps-fifo_example = Steps-fifo one_each (omega arith)
