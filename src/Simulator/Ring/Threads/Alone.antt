-- ===== src/Simulator/Ring/Threads/Alone.antt =====
-- A thread whose steps are not interrupted does what `try_push` and `try_pop` do.
use mathlib.Core.Path.{subst}
use exn_gs.Common.{
  ◌+◌, ◌%◌, ◌≡◌, sym, ap, [], ◌∷◌, ◌++◌, Bool, Option, none, some, ◌==◌, if◌then◌else◌, Bool-cases,
  inl, inr, replicate,
}
use exn_gs.Simulator.Ring.{RingQueue, try_push, try_pop}
use exn_gs.Simulator.Ring.Threads.{Producer, Consumer, Shared, pushing, popping, run}

module _ {A : Type 0} where
  -- After a failed attempt the thread is outside again; after the other, the element has passed.
  abbrev Pushes : Shared A → A → Option (RingQueue A) → Type 0
  Pushes s v none = run s (replicate 3 (pushing v)) ≡ s
  Pushes s v (some q) =
      run s (replicate 5 (pushing v)) ≡ record s { queue = q; sent = s.sent ++ v ∷ [] }

  abbrev Pops : Shared A → Option (A × RingQueue A) → Type 0
  Pops s none = run s (replicate 3 popping) ≡ s
  Pops s (some (v, q)) =
      run s (replicate 5 popping) ≡ record s { queue = q; received = s.received ++ v ∷ [] }

  -- Behind the test of the third step.
  abbrev pushed_to : Shared A → A → Bool → Shared A
  pushed_to s v full = record s {
    producer = if full then Producer.outside else Producer.writes v s.queue.head;
  }

  abbrev popped_to : Shared A → Bool → Shared A
  popped_to s empty = record s {
    consumer = if empty then Consumer.outside else Consumer.reads s.queue.tail;
  }

  push_outside :
      (s : Shared A) (v : A)
      → Pushes (record s { producer = Producer.outside }) v (try_push 64 s.queue v)
  unfolding try_push
  push_outside s v = elim (Bool-cases ((s.queue.head + 1) % 64 == s.queue.tail)) [
    | inl e ↦ rw e (ap (pushed_to s v) e)
    | inr e ↦ rw e (ap (λ (b : Bool). run (pushed_to s v b) (replicate 2 (pushing v))) e)
  ]

  pop_outside :
      (s : Shared A) → Pops (record s { consumer = Consumer.outside }) (try_pop 64 s.queue)
  unfolding try_pop
  pop_outside s = elim (Bool-cases (s.queue.tail == s.queue.head)) [
    | inl e ↦ rw e (ap (popped_to s) e)
    | inr e ↦ rw e (ap (λ (b : Bool). run (popped_to s b) (replicate 2 popping)) e)
  ]

  -- A thread outside of `try_push` whose next steps are not interrupted does what `try_push` does: it
  -- leaves everything as it is where the queue is full, and else puts its element into the queue.
  run-try_push :
      (s : Shared A) (v : A) → s.producer ≡ Producer.outside → Pushes s v (try_push 64 s.queue v)
  run-try_push s v idle =
      subst (λ (p : Producer A). Pushes (record s { producer = p }) v (try_push 64 s.queue v))
        (sym idle) (push_outside s v)

  -- A thread outside of `try_pop` whose next steps are not interrupted does what `try_pop` does: it
  -- leaves everything as it is where the queue is empty, and else takes what `try_pop` takes.
  run-try_pop : (s : Shared A) → s.consumer ≡ Consumer.outside → Pops s (try_pop 64 s.queue)
  run-try_pop s idle =
      subst (λ (c : Consumer A). Pops (record s { consumer = c }) (try_pop 64 s.queue)) (sym idle)
        (pop_outside s)
