-- ===== src/Ipc/Order.antt =====
-- The order in which a session writes, and its stale write.
use exn_gs.Common.{
  ℕ, ◌≡◌, refl, Bool, true, List, [], ◌∷◌, ◌++◌, none, some, Text, drop, append-nil, append_assoc,
  ap, sym, ◌∙◌,
}
use exn_gs.Ipc.{
  IpcSession, Effect, posts, writes, delivers, reads, undefined, do_write, run_posted, on_written,
  on_read,
}

-- A posted lambda runs, or a write completes without error.
pub data Event : Type 0 where
  runs_posted : List ℕ → Event
  completes_write : Event

abbrev step : IpcSession → Event → IpcSession × List Effect
step s (runs_posted bytes) = run_posted s bytes
step s completes_write = on_written s none

abbrev pub run : IpcSession → List Event → IpcSession × List Effect
run s [] = (s, [])
run s (e ∷ es) = ((run (step s e).0 es).0, (step s e).1 ++ (run (step s e).0 es).1)

abbrev pub posted : List Event → List (List ℕ)
posted [] = []
posted (runs_posted bytes ∷ es) = bytes ∷ posted es
posted (completes_write ∷ es) = posted es

abbrev pub written : List Effect → List (List ℕ)
written [] = []
written (writes bytes ∷ es) = bytes ∷ written es
written (posts bytes ∷ es) = written es
written (delivers f ∷ es) = written es
written (reads ∷ es) = written es
written (undefined ∷ es) = written es

written-append : (xs ys : List Effect) → written (xs ++ ys) ≡ written xs ++ written ys
written-append [] ys = refl
written-append (writes bytes ∷ xs) ys = ap (λ (r : List (List ℕ)). bytes ∷ r) (written-append xs ys)
written-append (posts bytes ∷ xs) ys = written-append xs ys
written-append (delivers f ∷ xs) ys = written-append xs ys
written-append (reads ∷ xs) ys = written-append xs ys
written-append (undefined ∷ xs) ys = written-append xs ys

abbrev pub open_session : List ℕ → List (List ℕ) → IpcSession
open_session rx queue = record { is_open = true; rxbuf = rx; tx_queue = queue }

-- What is written at one step, and what waits behind it.
step-posted :
    (rx : List ℕ) (queue : List (List ℕ)) (e : Event)
    → (queue' : List (List ℕ)) × ((step (open_session rx queue) e).0 ≡ open_session rx queue')
      × (written (step (open_session rx queue) e).1 ++ drop 1 queue'
          ≡ drop 1 queue ++ posted (e ∷ []))
unfolding run_posted on_written do_write
step-posted rx [] (runs_posted b) = (b ∷ [], refl, refl)
step-posted rx (x ∷ queue) (runs_posted b) = (x ∷ (queue ++ b ∷ []), refl, refl)
step-posted rx [] completes_write = ([], refl, refl)
step-posted rx (x ∷ []) completes_write = ([], refl, refl)
step-posted rx (x ∷ y ∷ queue) completes_write = (y ∷ queue, refl, sym (append-nil (y ∷ queue)))

posted-cons : (e : Event) (es : List Event) → posted (e ∷ []) ++ posted es ≡ posted (e ∷ es)
posted-cons (runs_posted b) es = refl
posted-cons completes_write es = refl

run_lem :
    (rx : List ℕ) (queue : List (List ℕ)) (es : List Event)
    → let r = run (open_session rx queue) es in
      written r.1 ++ drop 1 r.0.tx_queue ≡ drop 1 queue ++ posted es
run_lem rx queue [] = sym (append-nil (drop 1 queue))
run_lem rx queue (e ∷ es) =
    let a = (step (open_session rx queue) e).1 in
    let (queue', same, h) = step-posted rx queue e in
    let r = run (open_session rx queue') es in
    rw
      (
        same,
        written-append a r.1,
        append_assoc (written a) (written r.1) (drop 1 r.0.tx_queue),
        run_lem rx queue' es,
      )
      (sym (append_assoc (written a) (drop 1 queue') (posted es))
        ∙ ap (λ (l : List (List ℕ)). l ++ posted es) h
        ∙ append_assoc (drop 1 queue) (posted (e ∷ [])) (posted es)
        ∙ ap (λ (l : List (List ℕ)). drop 1 queue ++ l) (posted-cons e es))

-- In an open session with an empty queue, whatever posted lambdas run and writes complete without
-- error, in any order: the frames whose write has begun, then those that wait behind the front of the
-- queue, are the posted frames, in their order, each once and unaltered.
pub run-posted :
    (rx : List ℕ) (es : List Event)
    → let r = run (open_session rx []) es in written r.1 ++ drop 1 r.0.tx_queue ≡ posted es
run-posted rx es = run_lem rx [] es

-- When a read has failed while a completed write's handler still waits, that handler pops from an
-- empty queue.
pub on_read-on_written :
    (handled : Bool) (s : IpcSession) (message : Text) (bytes : List ℕ)
    → let failed = (on_read handled s (some message) bytes).0 in
      on_written failed none ≡ (failed, undefined ∷ [])
unfolding on_read on_written
on_read-on_written handled s message bytes = refl
