-- ===== src/Simulator/Ring/Threads.antt =====
-- sim/src/main.cpp: `RingQueue` between the thread that pushes and the thread that pops. Each access to
-- `head_`, `tail_` or a slot is a step of its own, and any thread may take the next one.
pub mod Views
pub mod Sound
pub mod Alone
use exn_gs.Common.{ℕ, ◌+◌, ◌%◌, List, [], ◌∷◌, ◌++◌, ◌==◌, if◌then◌else◌}
use exn_gs.Simulator.Ring.{RingQueue, write_slot}

-- Where `try_push` stands: before its first load, behind the first, behind the second, behind the
-- test, and before it stores the head.
pub data Producer (A : Type 0) : Type 0 where
  outside : Producer A
  has_head : A → ℕ → Producer A
  has_tail : A → ℕ → ℕ → Producer A
  writes storing : A → ℕ → Producer A

-- Where `try_pop` stands.
pub data Consumer (A : Type 0) : Type 0 where
  outside : Consumer A
  has_tail : ℕ → Consumer A
  has_head : ℕ → ℕ → Consumer A
  reads : ℕ → Consumer A
  storing : ℕ → A → Consumer A

-- With the elements whose push and whose pop have returned true.
pub record Shared (A : Type 0) : Type 0 where
  pub queue : RingQueue A
  pub producer : Producer A
  pub consumer : Consumer A
  pub sent : List A
  pub received : List A

-- Whose step is next; a push that begins has this argument.
pub data Turn (A : Type 0) : Type 0 where
  pushing : A → Turn A
  popping : Turn A

module _ {A : Type 0} where
  abbrev pub push_step : Shared A → A → Producer A → Shared A
  push_step s v Producer.outside = record s { producer = Producer.has_head v s.queue.head }
  push_step s w (Producer.has_head v h) = record s { producer = Producer.has_tail v h s.queue.tail }
  push_step s w (Producer.has_tail v h t) = record s {
    producer = if (h + 1) % 64 == t then Producer.outside else Producer.writes v h;
  }
  push_step s w (Producer.writes v h) = record s {
    queue = record s.queue { buf = write_slot s.queue.buf h v };
    producer = Producer.storing v h;
  }
  push_step s w (Producer.storing v h) = record s {
    queue = record s.queue { head = (h + 1) % 64 };
    producer = Producer.outside;
    sent = s.sent ++ v ∷ [];
  }

  abbrev pub pop_step : Shared A → Consumer A → Shared A
  pop_step s Consumer.outside = record s { consumer = Consumer.has_tail s.queue.tail }
  pop_step s (Consumer.has_tail t) = record s { consumer = Consumer.has_head t s.queue.head }
  pop_step s (Consumer.has_head t h) = record s {
    consumer = if t == h then Consumer.outside else Consumer.reads t;
  }
  pop_step s (Consumer.reads t) = record s { consumer = Consumer.storing t (s.queue.buf t) }
  pop_step s (Consumer.storing t v) = record s {
    queue = record s.queue { tail = (t + 1) % 64 };
    consumer = Consumer.outside;
    received = s.received ++ v ∷ [];
  }

  abbrev pub turn : Shared A → Turn A → Shared A
  turn s (pushing v) = push_step s v s.producer
  turn s popping = pop_step s s.consumer

  abbrev pub run : Shared A → List (Turn A) → Shared A
  run s [] = s
  run s (t ∷ ts) = run (turn s t) ts

  -- `head_{0}` and `tail_{0}`, with whatever is in the slots.
  abbrev pub new_shared : (ℕ → A) → Shared A
  new_shared buf = record {
    queue = record { buf = buf; head = 0; tail = 0 };
    producer = Producer.outside;
    consumer = Consumer.outside;
    sent = [];
    received = [];
  }
