-- ===== src/SerialLink/Fifo.antt =====
-- The order in which the device link writes.
use exn_gs.Common.{
  ℕ, ◌≡◌, refl, arith, Bool, true, false, List, [], ◌∷◌, ◌++◌, none, drop, append-nil, append_assoc,
  ap, sym, ◌∙◌, ◌==◌, length, if◌then◌else◌,
}
use exn_gs.SerialLink.{
  SerialLink, resolve, connect, read, write, posted, Effect, starts, state_changes, fails,
  bytes_arrive, Result, do_write, do_read, run_posted, on_written, on_read,
}

-- What happens to an open link that does not fail: a posted lambda runs, a write of its generation
-- completes, or a read does.
pub data Event : Type 0 where
  runs_posted : List ℕ → Event
  completes_write : Event
  completes_read : List ℕ → Event

abbrev step : SerialLink → Event → Result
step l (runs_posted bytes) = run_posted l bytes
step l completes_write = on_written l l.generation none
step l (completes_read bytes) = on_read l l.generation none bytes

abbrev pub run : SerialLink → List Event → Result
run l [] = (l, [])
run l (e ∷ es) = ((run (step l e).0 es).0, (step l e).1 ++ (run (step l e).0 es).1)

abbrev pub handed_over : List Event → List (List ℕ)
handed_over [] = []
handed_over (runs_posted bytes ∷ es) = bytes ∷ handed_over es
handed_over (completes_write ∷ es) = handed_over es
handed_over (completes_read bytes ∷ es) = handed_over es

abbrev write_of : Effect → List (List ℕ)
write_of (starts (write g bytes)) = bytes ∷ []
write_of (starts (resolve g)) = []
write_of (starts (connect g)) = []
write_of (starts (read g)) = []
write_of (starts (posted bytes)) = []
write_of (state_changes opened detail) = []
write_of (fails message) = []
write_of (bytes_arrive bytes) = []

abbrev pub written : List Effect → List (List ℕ)
written [] = []
written (e ∷ es) = write_of e ++ written es

pub written-append : (xs ys : List Effect) → written (xs ++ ys) ≡ written xs ++ written ys
written-append [] ys = refl
written-append (x ∷ xs) ys =
    ap (λ (r : List (List ℕ)). write_of x ++ r) (written-append xs ys)
    ∙ sym (append_assoc (write_of x) (written xs) (written ys))

abbrev pub opened_with : SerialLink → List (List ℕ) → SerialLink
opened_with l queue = record l { opened = true; tx_queue = queue }

same_generation : (g : ℕ) → (g == g) ≡ true
same_generation g = ground arith

written-if :
    (b : Bool) (g : ℕ) (bytes : List ℕ)
    → written (if b then starts (read g) ∷ [] else bytes_arrive bytes ∷ starts (read g) ∷ []) ≡ []
written-if true g bytes = refl
written-if false g bytes = refl

-- What is written at one step, and what waits behind it.
step-handed_over :
    (l : SerialLink) (queue : List (List ℕ)) (e : Event)
    → (queue' : List (List ℕ)) × ((step (opened_with l queue) e).0 ≡ opened_with l queue')
      × (written (step (opened_with l queue) e).1 ++ drop 1 queue'
          ≡ drop 1 queue ++ handed_over (e ∷ []))
unfolding run_posted on_written on_read do_write do_read
step-handed_over l [] (runs_posted b) =
    (b ∷ [], rw (same_generation l.generation) refl, rw (same_generation l.generation) refl)
step-handed_over l (x ∷ queue) (runs_posted b) = (x ∷ (queue ++ b ∷ []), refl, refl)
step-handed_over l [] completes_write =
    ([], rw (same_generation l.generation) refl, rw (same_generation l.generation) refl)
step-handed_over l (x ∷ []) completes_write =
    ([], rw (same_generation l.generation) refl, rw (same_generation l.generation) refl)
step-handed_over l (x ∷ y ∷ queue) completes_write = (
  y ∷ queue,
  rw (same_generation l.generation) refl,
  rw (same_generation l.generation) (sym (append-nil (y ∷ queue))),
)
step-handed_over l queue (completes_read bytes) = (
  queue,
  rw (same_generation l.generation) refl,
  rw (same_generation l.generation, written-if (length bytes == 0) l.generation bytes)
      (sym (append-nil (drop 1 queue))),
)

handed_over-cons :
    (e : Event) (es : List Event) → handed_over (e ∷ []) ++ handed_over es ≡ handed_over (e ∷ es)
handed_over-cons (runs_posted b) es = refl
handed_over-cons completes_write es = refl
handed_over-cons (completes_read bytes) es = refl

run_lem :
    (l : SerialLink) (queue : List (List ℕ)) (es : List Event)
    → let r = run (opened_with l queue) es in
      written r.1 ++ drop 1 r.0.tx_queue ≡ drop 1 queue ++ handed_over es
run_lem l queue [] = sym (append-nil (drop 1 queue))
run_lem l queue (e ∷ es) =
    let a = (step (opened_with l queue) e).1 in
    let (queue', same, h) = step-handed_over l queue e in
    let r = run (opened_with l queue') es in
    rw
      (
        same,
        written-append a r.1,
        append_assoc (written a) (written r.1) (drop 1 r.0.tx_queue),
        run_lem l queue' es,
      )
      (sym (append_assoc (written a) (drop 1 queue') (handed_over es))
        ∙ ap (λ (p : List (List ℕ)). p ++ handed_over es) h
        ∙ append_assoc (drop 1 queue) (handed_over (e ∷ [])) (handed_over es)
        ∙ ap (λ (p : List (List ℕ)). drop 1 queue ++ p) (handed_over-cons e es))

-- On an open link with an empty queue, whatever lambdas of `write_bytes` run and reads and writes
-- complete without error, in any order: the packets whose write has begun, then those that wait
-- behind the front of the queue, are the packets handed over, in their order, each once and unaltered.
pub run-handed_over :
    (l : SerialLink) (es : List Event)
    → let r = run (opened_with l []) es in written r.1 ++ drop 1 r.0.tx_queue ≡ handed_over es
run-handed_over l es = run_lem l [] es
