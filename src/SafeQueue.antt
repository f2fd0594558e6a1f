-- ===== src/SafeQueue.antt =====
-- src/SafeQueue.{h,cc}: a bounded queue shared by threads. Each operation holds the mutex, so it is one
-- step; an operation that waits on a condition variable is not enabled. An element is a pointer, of which only the value matters.
pub mod Tests
use mvtx.Prelude.{
  ℕ, ◌≤◌, ◌<◌, ◌≡◌, refl, sym, ap, ◌∙◌, subst, Bool, true, false, Bool-cases, Option, none, some,
  List, [], ◌∷◌, ◌++◌, append_assoc, append-nil, arith, ◌==◌, ==_iff, if◌then◌else◌, length,
  length-append, ◌+◌, inl, inr, none-some,
}

pub record SafeQueue : Type 0 where
  pub max_size : ℕ
  pub queue : List ℕ

-- Nothing while the queue is full.
unfoldable pub enqueue : ℕ → SafeQueue → Option SafeQueue
enqueue t q =
    if length q.queue == q.max_size then none else some (record q { queue = q.queue ++ (t ∷ []) })

-- The front element and the rest.
abbrev pop_front : ℕ → List ℕ → Option (ℕ × SafeQueue)
pop_front size [] = none
pop_front size (t ∷ ts) = some (t, record { max_size = size; queue = ts })

-- Nothing while the queue is empty.
unfoldable pub dequeue : SafeQueue → Option (ℕ × SafeQueue)
dequeue q = pop_front q.max_size q.queue

-- The element, if the result is true, and the queue.
unfoldable pub try_dequeue : SafeQueue → Option ℕ × SafeQueue
try_dequeue q = elim (pop_front q.max_size q.queue) [
  | none ↦ (none, q)
  | some (t, q') ↦ (some t, q')
]

-- A history of the queue: what was put in and what was taken out, in order.
pub data Steps : SafeQueue → List ℕ → List ℕ → SafeQueue → Type 0 where
  done : {q : SafeQueue} → Steps q [] [] q
  put :
      {q q1 q2 : SafeQueue} {t : ℕ} {ins outs : List ℕ}
      → enqueue t q ≡ some q1
      → Steps q1 ins outs q2
      → Steps q (t ∷ ins) outs q2
  take :
      {q q1 q2 : SafeQueue} {t : ℕ} {ins outs : List ℕ}
      → dequeue q ≡ some (t, q1)
      → Steps q1 ins outs q2
      → Steps q ins (t ∷ outs) q2
  poll :
      {q q1 q2 : SafeQueue} {t : ℕ} {ins outs : List ℕ}
      → try_dequeue q ≡ (some t, q1)
      → Steps q1 ins outs q2
      → Steps q ins (t ∷ outs) q2
  poll_empty :
      {q q1 q2 : SafeQueue} {ins outs : List ℕ}
      → try_dequeue q ≡ (none, q1)
      → Steps q1 ins outs q2
      → Steps q ins outs q2

enqueue_room :
    (t : ℕ) (q q1 : SafeQueue)
    → (length q.queue == q.max_size) ≡ false
    → length q.queue ≤ q.max_size
    → some (record q { queue = q.queue ++ (t ∷ []) }) ≡ some q1
    → (q1.queue ≡ q.queue ++ (t ∷ []))
      × (q1.max_size ≡ q.max_size)
      × (length q1.queue ≤ q1.max_size)
enqueue_room t q q1 free h e =
    let e1 : q1 ≡ record q { queue = q.queue ++ (t ∷ []) } = cc in
    let lt : length q.queue < q.max_size = ground arith in
    rw e1 (refl, refl, omega (arith, lt, length-append q.queue (t ∷ [])))

enqueue-append :
    (t : ℕ) (q q1 : SafeQueue)
    → enqueue t q ≡ some q1
    → length q.queue ≤ q.max_size
    → (q1.queue ≡ q.queue ++ (t ∷ []))
      × (q1.max_size ≡ q.max_size)
      × (length q1.queue ≤ q1.max_size)
unfolding enqueue
enqueue-append t q q1 e h = elim (Bool-cases (length q.queue == q.max_size)) [
  | inl full ↦ absurd (none-some q1 (rw full at e))
  | inr free ↦ enqueue_room t q q1 free h (rw free at e)
]

pop_front-cons :
    (size : ℕ) (ts : List ℕ) (t : ℕ) (q1 : SafeQueue)
    → pop_front size ts ≡ some (t, q1)
    → (ts ≡ t ∷ q1.queue) × (q1.max_size ≡ size)
pop_front-cons size [] t q1 e = absurd (none-some (t, q1) e)
pop_front-cons size (x ∷ ts) t q1 e =
    let e1 : x ≡ t = cc in
    let e2 : record { max_size = size; queue = ts } ≡ q1 = cc in rw (← e2, e1) (refl, refl)

try_dequeue-some :
    (q : SafeQueue) (o : Option (ℕ × SafeQueue)) (t : ℕ) (q1 : SafeQueue)
    → pop_front q.max_size q.queue ≡ o
    → try_dequeue q ≡ (some t, q1)
    → pop_front q.max_size q.queue ≡ some (t, q1)
unfolding try_dequeue
try_dequeue-some q none t q1 o e =
    let f : none ≡ some t = ap (λ (p : Option ℕ × SafeQueue). p.0) (rw (o, try_dequeue) at e) in
    absurd (none-some t f)
try_dequeue-some q (some (x, q2)) t q1 o e =
    let f : ◌≡◌ {A = Option ℕ × SafeQueue} (some x, q2) (some t, q1) = rw (o, try_dequeue) at e in
    let e1 : x ≡ t = cc in
    let e2 : q2 ≡ q1 = ap (λ (p : Option ℕ × SafeQueue). p.1) f in o ∙ rw (e1, e2) refl

try_dequeue-none :
    (q : SafeQueue) (o : Option (ℕ × SafeQueue)) (q1 : SafeQueue)
    → pop_front q.max_size q.queue ≡ o
    → try_dequeue q ≡ (none, q1)
    → q ≡ q1
unfolding try_dequeue
try_dequeue-none q none q1 o e = ap (λ (p : Option ℕ × SafeQueue). p.1) (rw (o, try_dequeue) at e)
try_dequeue-none q (some (x, q2)) q1 o e =
    let f : some x ≡ none = ap (λ (p : Option ℕ × SafeQueue). p.0) (rw (o, try_dequeue) at e) in
    absurd (none-some x (sym f))

-- In every history from a queue that holds at most `max_size` elements, the elements that come out and
-- those left in the queue are those that were there and those put in, in order, and the bound still
-- holds.
pub Steps-fifo :
    {q q' : SafeQueue} {ins outs : List ℕ}
    → Steps q ins outs q'
    → length q.queue ≤ q.max_size
    → (q.queue ++ ins ≡ outs ++ q'.queue)
      × (length q'.queue ≤ q'.max_size)
      × (q'.max_size ≡ q.max_size)
unfolding dequeue
Steps-fifo (done {q}) h = (append-nil q.queue, h, refl)
Steps-fifo (put {q} {q1} {q2} {t} {ins} {outs} e s) h =
    let a = enqueue-append t q q1 e h in
    let rest = Steps-fifo s a.2 in
    (
      sym (append_assoc q.queue (t ∷ []) ins) ∙ ap (λ x. x ++ ins) (sym a.0) ∙ rest.0,
      rest.1,
      rest.2 ∙ a.1,
    )
Steps-fifo (take {q} {q1} {q2} {t} {ins} {outs} e s) h =
    let c = pop_front-cons q.max_size q.queue t q1 e in
    let rest = Steps-fifo s (omega (arith, ap length c.0, c.1, h)) in
    (ap (λ x. x ++ ins) c.0 ∙ ap (λ x. t ∷ x) rest.0, rest.1, rest.2 ∙ c.1)
Steps-fifo (poll {q} {q1} {q2} {t} {ins} {outs} e s) h =
    let c =
      pop_front-cons q.max_size q.queue t q1
        (try_dequeue-some q (pop_front q.max_size q.queue) t q1 refl e) in
    let rest = Steps-fifo s (omega (arith, ap length c.0, c.1, h)) in
    (ap (λ x. x ++ ins) c.0 ∙ ap (λ x. t ∷ x) rest.0, rest.1, rest.2 ∙ c.1)
Steps-fifo (poll_empty {q} {q1} {q2} {ins} {outs} e s) h =
    let k = try_dequeue-none q (pop_front q.max_size q.queue) q1 refl e in
    let rest = Steps-fifo s (subst (λ (x : SafeQueue). length x.queue ≤ x.max_size) k h) in
    (
      ap (λ (x : SafeQueue). x.queue ++ ins) k ∙ rest.0,
      rest.1,
      rest.2 ∙ ap (λ (x : SafeQueue). x.max_size) (sym k),
    )
