-- ===== src/Simulator/Ring/Threads/Views.antt =====
-- What each of two threads may rely on of the queue that they share.
use exn_gs.Common.{ℕ, ◌+◌, ◌-◌, ◌%◌, ◌<◌, ◌≤◌, ◌≡◌, sym, ap, ◌∙◌, arith}
use exn_gs.Simulator.Ring.{RingQueue, count}
use exn_gs.Simulator.Ring.Threads.{Producer, Consumer}

module _ {A : Type 0} where
  -- What the pushing thread may rely on: its tail may be old, but then the queue has got emptier.
  abbrev pub IsPushing : RingQueue A → Producer A → Type 0
  IsPushing q Producer.outside = Unit
  IsPushing q (Producer.has_head v h) = h ≡ q.head
  IsPushing q (Producer.has_tail v h t) = (h ≡ q.head) × (t < 64) × (count q ≤ (h + 64 - t) % 64)
  IsPushing q (Producer.writes v h) = (h ≡ q.head) × (count q < 63)
  IsPushing q (Producer.storing v h) = (h ≡ q.head) × (count q < 63) × (q.buf h ≡ v)

  -- And the popping thread: its head may be old, but then the queue has got fuller.
  abbrev pub IsPopping : RingQueue A → Consumer A → Type 0
  IsPopping q Consumer.outside = Unit
  IsPopping q (Consumer.has_tail t) = t ≡ q.tail
  IsPopping q (Consumer.has_head t h) = (t ≡ q.tail) × (h < 64) × ((h + 64 - t) % 64 ≤ count q)
  IsPopping q (Consumer.reads t) = (t ≡ q.tail) × (0 < count q)
  IsPopping q (Consumer.storing t v) = (t ≡ q.tail) × (0 < count q) × (v ≡ q.buf t)

  -- The queue has got no emptier, and the slot at its tail is as it was.
  pub IsPopping-fuller :
      (q q' : RingQueue A) (c : Consumer A)
      → q'.tail ≡ q.tail
      → count q ≤ count q'
      → (0 < count q → q'.buf q.tail ≡ q.buf q.tail)
      → IsPopping q c
      → IsPopping q' c
  IsPopping-fuller q q' Consumer.outside same more kept h = h
  IsPopping-fuller q q' (Consumer.has_tail t) same more kept h = h ∙ sym same
  IsPopping-fuller q q' (Consumer.has_head t h) same more kept (a, b, c) =
      (a ∙ sym same, b, omega arith)
  IsPopping-fuller q q' (Consumer.reads t) same more kept (a, b) = (a ∙ sym same, omega arith)
  IsPopping-fuller q q' (Consumer.storing t v) same more kept (a, b, c) =
      (a ∙ sym same, omega arith, c ∙ ap q.buf a ∙ sym (kept b) ∙ ap q'.buf (sym a))

  -- The queue has got no fuller, and its slots are as they were.
  pub IsPushing-emptier :
      (q q' : RingQueue A) (p : Producer A)
      → q'.head ≡ q.head
      → q'.buf ≡ q.buf
      → count q' ≤ count q
      → IsPushing q p
      → IsPushing q' p
  IsPushing-emptier q q' Producer.outside same kept less h = h
  IsPushing-emptier q q' (Producer.has_head v h) same kept less a = a ∙ sym same
  IsPushing-emptier q q' (Producer.has_tail v h t) same kept less (a, b, c) =
      (a ∙ sym same, b, omega arith)
  IsPushing-emptier q q' (Producer.writes v h) same kept less (a, b) = (a ∙ sym same, omega arith)
  IsPushing-emptier q q' (Producer.storing v h) same kept less (a, b, c) =
      (a ∙ sym same, omega arith, ap (λ (f : ℕ → A). f h) kept ∙ c)
