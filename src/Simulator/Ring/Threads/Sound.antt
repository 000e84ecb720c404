-- ===== src/Simulator/Ring/Threads/Sound.antt =====
-- What passes through a queue between two threads.
use exn_gs.Common.{
  ℕ, suc, ◌+◌, ◌-◌, ◌%◌, ◌<◌, ◌≤◌, ◌≡◌, ◌≢◌, refl, sym, ap, ◌∙◌, arith, List, [], ◌∷◌, ◌++◌, ◌==◌,
  if◌then◌else◌, Bool-cases, inl, inr, append_assoc,
}
use exn_gs.Simulator.Ring.{
  RingQueue, IsRing, slots, count, contents, write_slot, slots_write, slots_last,
}
use exn_gs.Simulator.Ring.Threads.{
  Producer, Consumer, Shared, Turn, pushing, popping, push_step, pop_step, turn, run, new_shared,
}
use exn_gs.Simulator.Ring.Threads.Views.{IsPushing, IsPopping, IsPopping-fuller, IsPushing-emptier}

module _ {A : Type 0} where
  record IsSound (s : Shared A) : Type 0 where
    ring : IsRing s.queue
    pushing : IsPushing s.queue s.producer
    popping : IsPopping s.queue s.consumer
    passed : s.sent ≡ s.received ++ contents s.queue

  after_test :
      (v : A) (h t : ℕ) (q : RingQueue A)
      → h ≡ q.head
      → q.head < 64
      → t < 64
      → count q ≤ (h + 64 - t) % 64
      → IsPushing q (if (h + 1) % 64 == t then Producer.outside else Producer.writes v h)
  after_test v h t q same small fits old = elim (Bool-cases ((h + 1) % 64 == t)) [
    | inl e ↦ rw e tt
    | inr e ↦ let room : count q < 63 = ground (arith, e) in rw e (same, room)
  ]

  pop_test :
      (t h : ℕ) (q : RingQueue A)
      → t ≡ q.tail
      → q.tail < 64
      → h < 64
      → (h + 64 - t) % 64 ≤ count q
      → IsPopping q (if t == h then Consumer.outside else Consumer.reads t)
  pop_test t h q same small fits old = elim (Bool-cases (t == h)) [
    | inl e ↦ rw e tt
    | inr e ↦ let more : 0 < count q = ground (arith, e) in rw e (same, more)
  ]

  push_step-IsSound :
      (s : Shared A) (v : A) (p : Producer A)
      → IsPushing s.queue p
      → IsSound s
      → IsSound (push_step s v p)
  push_step-IsSound s v Producer.outside h inv = record {
    ring = inv.ring;
    pushing = refl;
    popping = inv.popping;
    passed = inv.passed;
  }
  push_step-IsSound s w (Producer.has_head v h) same inv = record {
    ring = inv.ring;
    pushing = (same, inv.ring.1, omega (arith, same));
    popping = inv.popping;
    passed = inv.passed;
  }
  push_step-IsSound s w (Producer.has_tail v h t) (same, fits, old) inv = record {
    ring = inv.ring;
    pushing = after_test v h t s.queue same inv.ring.0 fits old;
    popping = inv.popping;
    passed = inv.passed;
  }
  push_step-IsSound s w (Producer.writes v h) (same, room) inv =
      let q = s.queue in
      let q' : RingQueue A = record q { buf = write_slot q.buf h v } in
      let written : write_slot q.buf h v h ≡ v = ground arith in
      let apart : 0 < count q → q'.buf q.tail ≡ q.buf q.tail = λ more. ground (arith, same) in
      record {
        ring = inv.ring;
        pushing = (same, room, written);
        popping = IsPopping-fuller q q' s.consumer refl (omega arith) apart inv.popping;
        passed =
            inv.passed
            ∙ ap (λ (xs : List A). s.received ++ xs)
                (sym (
                  slots_write q.buf h v q.tail (count q) inv.ring.1
                    (omega (arith, same, inv.ring.0)) (omega (arith, same, inv.ring))));
      }
  push_step-IsSound s w (Producer.storing v h) (same, room, written) inv =
      let q = s.queue in
      let q' : RingQueue A = record q { head = (h + 1) % 64 } in
      let longer : count q' ≡ suc (count q) = omega (arith, same, room, inv.ring) in
      let place : (q.tail + count q) % 64 ≡ h = omega (arith, same, inv.ring) in
      record {
        ring = (omega arith, inv.ring.1);
        pushing = tt;
        popping =
            IsPopping-fuller q q' s.consumer refl (omega (arith, longer)) (λ more. refl)
              inv.popping;
        passed =
            rw (longer, slots_last q.buf q.tail (count q) inv.ring.1, place, written)
              (ap (λ (xs : List A). xs ++ v ∷ []) inv.passed
                ∙ append_assoc s.received (contents q) (v ∷ []));
      }

  pop_step-IsSound :
      (s : Shared A) (c : Consumer A) → IsPopping s.queue c → IsSound s → IsSound (pop_step s c)
  pop_step-IsSound s Consumer.outside h inv = record {
    ring = inv.ring;
    pushing = inv.pushing;
    popping = refl;
    passed = inv.passed;
  }
  pop_step-IsSound s (Consumer.has_tail t) same inv = record {
    ring = inv.ring;
    pushing = inv.pushing;
    popping = (same, inv.ring.0, omega (arith, same));
    passed = inv.passed;
  }
  pop_step-IsSound s (Consumer.has_head t h) (same, fits, old) inv = record {
    ring = inv.ring;
    pushing = inv.pushing;
    popping = pop_test t h s.queue same inv.ring.1 fits old;
    passed = inv.passed;
  }
  pop_step-IsSound s (Consumer.reads t) (same, more) inv = record {
    ring = inv.ring;
    pushing = inv.pushing;
    popping = (same, more, refl);
    passed = inv.passed;
  }
  pop_step-IsSound s (Consumer.storing t v) (same, more, taken) inv =
      let q = s.queue in
      let q' : RingQueue A = record q { tail = (t + 1) % 64 } in
      let shorter : count q ≡ suc (count q') = omega (arith, same, more, inv.ring) in
      let front : contents q ≡ v ∷ contents q' =
        ap (slots q.buf q.tail) shorter
        ∙ ap (λ (i : ℕ). q.buf i ∷ slots q.buf ((i + 1) % 64) (count q')) (sym same)
        ∙ ap (λ (x : A). x ∷ contents q') (sym taken) in
      record {
        ring = (inv.ring.0, omega arith);
        pushing = IsPushing-emptier q q' s.producer refl refl (omega (arith, shorter)) inv.pushing;
        popping = tt;
        passed =
            inv.passed
            ∙ ap (λ (xs : List A). s.received ++ xs) front
            ∙ sym (append_assoc s.received (v ∷ []) (contents q'));
      }

  turn-IsSound : (s : Shared A) (t : Turn A) → IsSound s → IsSound (turn s t)
  turn-IsSound s (pushing v) inv = push_step-IsSound s v s.producer inv.pushing inv
  turn-IsSound s popping inv = pop_step-IsSound s s.consumer inv.popping inv

  run-IsSound : (s : Shared A) (ts : List (Turn A)) → IsSound s → IsSound (run s ts)
  run-IsSound s [] inv = inv
  run-IsSound s (t ∷ ts) inv = run-IsSound (turn s t) ts (turn-IsSound s t inv)

  -- The slot that is about to be written is not the one that is about to be read.
  abbrev pub IsRaceFree : Producer A → Consumer A → Type 0
  IsRaceFree (Producer.writes v h) (Consumer.reads t) = h ≢ t
  IsRaceFree (Producer.writes v h) Consumer.outside = Unit
  IsRaceFree (Producer.writes v h) (Consumer.has_tail t) = Unit
  IsRaceFree (Producer.writes v h) (Consumer.has_head t i) = Unit
  IsRaceFree (Producer.writes v h) (Consumer.storing t w) = Unit
  IsRaceFree Producer.outside c = Unit
  IsRaceFree (Producer.has_head v h) c = Unit
  IsRaceFree (Producer.has_tail v h t) c = Unit
  IsRaceFree (Producer.storing v h) c = Unit

  apart :
      (q : RingQueue A) (p : Producer A) (c : Consumer A)
      → IsPushing q p
      → IsPopping q c
      → IsRing q
      → IsRaceFree p c
  apart q (Producer.writes v h) (Consumer.reads t) (a, room) (b, more) ring =
      λ e. omega (arith, a, b, e, more, ring)
  apart q (Producer.writes v h) Consumer.outside a b ring = tt
  apart q (Producer.writes v h) (Consumer.has_tail t) a b ring = tt
  apart q (Producer.writes v h) (Consumer.has_head t i) a b ring = tt
  apart q (Producer.writes v h) (Consumer.storing t w) a b ring = tt
  apart q Producer.outside c a b ring = tt
  apart q (Producer.has_head v h) c a b ring = tt
  apart q (Producer.has_tail v h t) c a b ring = tt
  apart q (Producer.storing v h) c a b ring = tt

  -- From an empty queue, whatever the two threads do and however their loads and stores follow each
  -- other: what has been pushed is what has been popped and then what waits, in order and each once;
  -- and the slot that is written is never the slot that is read at that time.
  pub run-new_shared :
      (buf : ℕ → A) (ts : List (Turn A))
      → let s = run (new_shared buf) ts in
        (s.sent ≡ s.received ++ contents s.queue) × IsRaceFree s.producer s.consumer
  run-new_shared buf ts =
      let s = run (new_shared buf) ts in
      let sound =
        run-IsSound (new_shared buf) ts (record {
          ring = (omega arith, omega arith);
          pushing = tt;
          popping = tt;
          passed = refl;
        }) in
      (sound.passed, apart s.queue s.producer s.consumer sound.pushing sound.popping sound.ring)
