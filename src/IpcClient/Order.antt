-- ===== src/IpcClient/Order.antt =====
-- The order in which the client writes while it is connected.
use exn_gs.Common.{
  ℕ, ◌≡◌, refl, Bool, true, List, [], ◌∷◌, ◌++◌, none, Text, drop, append-nil, append_assoc, ap,
  sym, ◌∙◌, Bool-cases, inl, inr,
}
use exn_gs.Protocol.{Frame}
use exn_gs.Protocol.Stream.{receive}
use exn_gs.IpcClient.{
  IpcClient, Effect, resolves, connects, reads, waits, undefined, posts, writes, connection_state,
  frame_arrives, Result, arrive_all, on_read, do_write, on_written, run_posted,
}

-- A posted lambda runs, or a write or a read completes without error.
pub data Event : Type 0 where
  runs_posted : List ℕ → Event
  completes_write : Event
  completes_read : List ℕ → Event

abbrev step : IpcClient → Event → Result
step c (runs_posted bytes) = run_posted c bytes
step c completes_write = on_written c none
step c (completes_read bytes) = on_read c none bytes

abbrev pub run : IpcClient → List Event → Result
run c [] = (c, [])
run c (e ∷ es) = ((run (step c e).0 es).0, (step c e).1 ++ (run (step c e).0 es).1)

abbrev pub posted : List Event → List (List ℕ)
posted [] = []
posted (runs_posted bytes ∷ es) = bytes ∷ posted es
posted (completes_write ∷ es) = posted es
posted (completes_read bytes ∷ es) = posted es

abbrev pub written : List Effect → List (List ℕ)
written [] = []
written (writes bytes ∷ es) = bytes ∷ written es
written (posts bytes ∷ es) = written es
written (resolves ∷ es) = written es
written (connects ∷ es) = written es
written (reads ∷ es) = written es
written (waits ∷ es) = written es
written (undefined ∷ es) = written es
written (connection_state connected detail ∷ es) = written es
written (frame_arrives f ∷ es) = written es

written-append : (xs ys : List Effect) → written (xs ++ ys) ≡ written xs ++ written ys
written-append [] ys = refl
written-append (writes bytes ∷ xs) ys = ap (λ (r : List (List ℕ)). bytes ∷ r) (written-append xs ys)
written-append (posts bytes ∷ xs) ys = written-append xs ys
written-append (resolves ∷ xs) ys = written-append xs ys
written-append (connects ∷ xs) ys = written-append xs ys
written-append (reads ∷ xs) ys = written-append xs ys
written-append (waits ∷ xs) ys = written-append xs ys
written-append (undefined ∷ xs) ys = written-append xs ys
written-append (connection_state connected detail ∷ xs) ys = written-append xs ys
written-append (frame_arrives f ∷ xs) ys = written-append xs ys

written-arrive_all :
    (fs : List Frame) (es : List Effect) → written (arrive_all fs ++ es) ≡ written es
written-arrive_all [] es = refl
written-arrive_all (f ∷ fs) es = written-arrive_all fs es

posted-cons : (e : Event) (es : List Event) → posted (e ∷ []) ++ posted es ≡ posted (e ∷ es)
posted-cons (runs_posted b) es = refl
posted-cons completes_write es = refl
posted-cons (completes_read bytes) es = refl

module _ (host : Text) (port : ℕ) (scheduled : Bool) where
  abbrev pub open_client : List ℕ → List (List ℕ) → IpcClient
  open_client rx queue = record {
    host = host;
    port = port;
    is_open = true;
    connected = true;
    reconnect_scheduled = scheduled;
    rxbuf = rx;
    tx_queue = queue;
  }

  written-on_read :
      (rx : List ℕ) (queue : List (List ℕ)) (bytes : List ℕ)
      → written (on_read (open_client rx queue) none bytes).1 ≡ []
  unfolding on_read
  written-on_read rx queue bytes =
      let r = receive rx bytes in
      elim (Bool-cases r.broken) [
        | inl e ↦ rw e (written-arrive_all r.frames (undefined ∷ []))
        | inr e ↦ rw e (written-arrive_all r.frames (reads ∷ []))
      ]

  -- What is written at one step, and what waits behind it.
  step-posted :
      (rx : List ℕ) (queue : List (List ℕ)) (e : Event)
      → (rx' : List ℕ) × (queue' : List (List ℕ)) × ((step (open_client rx queue) e).0
          ≡ open_client rx' queue')
        × (written (step (open_client rx queue) e).1 ++ drop 1 queue'
            ≡ drop 1 queue ++ posted (e ∷ []))
  unfolding run_posted on_written do_write on_read
  step-posted rx [] (runs_posted b) = (rx, b ∷ [], refl, refl)
  step-posted rx (x ∷ queue) (runs_posted b) = (rx, x ∷ (queue ++ b ∷ []), refl, refl)
  step-posted rx [] completes_write = (rx, [], refl, refl)
  step-posted rx (x ∷ []) completes_write = (rx, [], refl, refl)
  step-posted rx (x ∷ y ∷ queue) completes_write =
      (rx, y ∷ queue, refl, sym (append-nil (y ∷ queue)))
  step-posted rx queue (completes_read bytes) = (
    (receive rx bytes).rxbuf,
    queue,
    refl,
    rw (written-on_read rx queue bytes) (sym (append-nil (drop 1 queue))),
  )

  -- While the client is connected, whatever posted lambdas run and reads and writes complete without
  -- error, in any order: the frames whose write has begun, then those that wait behind the front of
  -- the queue, are those that waited and the posted frames, in their order, each once and unaltered.
  pub run-posted :
      (rx : List ℕ) (queue : List (List ℕ)) (es : List Event)
      → let r = run (open_client rx queue) es in
        written r.1 ++ drop 1 r.0.tx_queue ≡ drop 1 queue ++ posted es
  run-posted rx queue [] = sym (append-nil (drop 1 queue))
  run-posted rx queue (e ∷ es) =
      let a = (step (open_client rx queue) e).1 in
      let (rx', queue', same, h) = step-posted rx queue e in
      let r = run (open_client rx' queue') es in
      rw
        (
          same,
          written-append a r.1,
          append_assoc (written a) (written r.1) (drop 1 r.0.tx_queue),
          run-posted rx' queue' es,
        )
        (sym (append_assoc (written a) (drop 1 queue') (posted es))
          ∙ ap (λ (l : List (List ℕ)). l ++ posted es) h
          ∙ append_assoc (drop 1 queue) (posted (e ∷ [])) (posted es)
          ∙ ap (λ (l : List (List ℕ)). drop 1 queue ++ l) (posted-cons e es))
