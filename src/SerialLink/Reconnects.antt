-- ===== src/SerialLink/Reconnects.antt =====
-- What the device link writes over its whole life, whatever is called and whatever fails in between.
use mathlib.Core.List.{Sublist, nil-sublist, sublist-append_left}
use mathlib.Core.List.Sublist
use mathlib.Core.Path.{subst}
use exn_gs.Common.{
  ℕ, ◌≡◌, ◌⊎◌, refl, arith, Bool-cases, true, false, List, [], ◌∷◌, ◌++◌, Option, drop, append-nil,
  append_assoc, sym, inl, inr, Text,
}
use exn_gs.SerialLink.{
  SerialLink, Pending, resolve, connect, read, write, posted, Result, PortAnswer, start, stop,
  do_write, write_front, run_posted, on_resolved, on_connected, on_written, on_read,
}
use exn_gs.SerialLink.World.{Completion, complete}
use exn_gs.SerialLink.Fifo.{written, written-append}

-- Any method is called, or any operation of any generation completes with anything.
pub data Event : Type 0 where
  starts_link : PortAnswer → Event
  stops_link : Event
  completes : Pending → Completion → Event

abbrev step : SerialLink → Event → Result
step l (starts_link answer) = start l answer
step l stops_link = stop l
step l (completes p c) = complete l p c

abbrev pub run : SerialLink → List Event → Result
run l [] = (l, [])
run l (e ∷ es) = ((run (step l e).0 es).0, (step l e).1 ++ (run (step l e).0 es).1)

abbrev lambda_of : Event → List (List ℕ)
lambda_of (completes (posted bytes) c) = bytes ∷ []
lambda_of (completes (resolve g) c) = []
lambda_of (completes (connect g) c) = []
lambda_of (completes (read g) c) = []
lambda_of (completes (write g bytes) c) = []
lambda_of (starts_link answer) = []
lambda_of stops_link = []

-- The packets of the lambdas that run.
abbrev pub handed_over : List Event → List (List ℕ)
handed_over [] = []
handed_over (e ∷ es) = lambda_of e ++ handed_over es

-- A result that writes nothing and keeps the queue or clears it.
abbrev Calm : SerialLink → Result → Type 0
Calm l (l', effects) = (written effects ≡ []) × ((l'.tx_queue ≡ l.tx_queue) ⊎ (l'.tx_queue ≡ []))

module _ (l : SerialLink) where
  start-Calm : (answer : PortAnswer) → Calm l (start l answer)
  unfolding start
  start-Calm answer = ground arith

  stop-Calm : Calm l (stop l)
  unfolding stop
  stop-Calm = (refl, inr refl)

  on_resolved-Calm : (g : ℕ) (ec : Option Text) → Calm l (on_resolved l g ec)
  unfolding on_resolved
  on_resolved-Calm g ec = ground arith

  on_connected-Calm : (g : ℕ) (ec : Option Text) → Calm l (on_connected l g ec)
  unfolding on_connected
  on_connected-Calm g ec = ground arith

  on_read-Calm : (g : ℕ) (ec : Option Text) (bytes : List ℕ) → Calm l (on_read l g ec bytes)
  unfolding on_read
  on_read-Calm g ec bytes = ground arith

-- What a result writes and leaves behind the front of its queue, from such a queue and such packets.
abbrev Narrows : List (List ℕ) → List (List ℕ) → Result → Type 0
Narrows queue packets (l', effects) =
    Sublist (written effects ++ drop 1 l'.tx_queue) (drop 1 queue ++ packets)

Calm-Narrows : (l : SerialLink) (r : Result) → Calm l r → Narrows l.tx_queue [] r
Calm-Narrows l r (silent, inl same) =
    rw (silent, same, append-nil (drop 1 l.tx_queue)) (Sublist.refl (drop 1 l.tx_queue))
Calm-Narrows l r (silent, inr empty) = rw (silent, empty) (nil-sublist (drop 1 l.tx_queue ++ []))

drop-sublist : (queue : List (List ℕ)) → Sublist (drop 1 queue) queue
drop-sublist [] = nil-sublist []
drop-sublist (x ∷ queue) = Sublist.cons x (Sublist.refl queue)

-- What is written by `do_write`, if anything, is the front of the queue.
write_front-sublist :
    (l : SerialLink) (g : ℕ) (queue : List (List ℕ))
    → Sublist (written (write_front l g queue).1 ++ drop 1 queue) queue
unfolding write_front
write_front-sublist l g [] = nil-sublist []
write_front-sublist l g (bytes ∷ queue) = Sublist.refl (bytes ∷ queue)

write_front-link : (l : SerialLink) (g : ℕ) (queue : List (List ℕ)) → (write_front l g queue).0 ≡ l
unfolding write_front
write_front-link l g [] = refl
write_front-link l g (bytes ∷ queue) = refl

do_write-cases :
    (l : SerialLink) (g : ℕ)
    → (do_write l g ≡ (l, [])) ⊎ (do_write l g ≡ write_front l g l.tx_queue)
unfolding do_write
do_write-cases l g = ground arith

do_write-sublist :
    (l : SerialLink) (g : ℕ)
    → Sublist (written (do_write l g).1 ++ drop 1 (do_write l g).0.tx_queue) l.tx_queue
do_write-sublist l g = elim (do_write-cases l g) [
  | inl idle ↦ rw (idle) (drop-sublist l.tx_queue)
  | inr writes ↦ rw (writes, write_front-link l g l.tx_queue) (write_front-sublist l g l.tx_queue)
]

abbrev with_queue : SerialLink → List (List ℕ) → SerialLink
with_queue l queue = record l { tx_queue = queue }

on_written-cases :
    (l : SerialLink) (g : ℕ) (ec : Option Text)
    → Calm l (on_written l g ec)
      ⊎ (on_written l g ec ≡ do_write (with_queue l (drop 1 l.tx_queue)) g)
unfolding on_written
on_written-cases l g ec = ground arith

on_written-Narrows :
    (l : SerialLink) (g : ℕ) (ec : Option Text) → Narrows l.tx_queue [] (on_written l g ec)
on_written-Narrows l g ec = elim (on_written-cases l g ec) [
  | inl calm ↦ Calm-Narrows l (on_written l g ec) calm
  | inr writes ↦
      rw (writes, append-nil (drop 1 l.tx_queue))
        (do_write-sublist (with_queue l (drop 1 l.tx_queue)) g)
]

posted_open :
    (l : SerialLink) (queue : List (List ℕ)) (bytes : List ℕ)
    → l.opened ≡ true
    → Narrows queue (bytes ∷ []) (run_posted (with_queue l queue) bytes)
unfolding run_posted
posted_open l [] bytes is_open =
    rw (is_open) (do_write-sublist (record l { opened = true; tx_queue = bytes ∷ [] }) l.generation)
posted_open l (x ∷ queue) bytes is_open = rw (is_open) (Sublist.refl (queue ++ bytes ∷ []))

posted_closed : (l : SerialLink) (bytes : List ℕ) → l.opened ≡ false → run_posted l bytes ≡ (l, [])
unfolding run_posted
posted_closed l bytes closed = rw (closed) refl

run_posted-Narrows :
    (l : SerialLink) (bytes : List ℕ) → Narrows l.tx_queue (bytes ∷ []) (run_posted l bytes)
run_posted-Narrows l bytes = elim (Bool-cases l.opened) [
  | inl is_open ↦ posted_open l l.tx_queue bytes is_open
  | inr closed ↦
      rw (posted_closed l bytes closed) (sublist-append_left (drop 1 l.tx_queue) (bytes ∷ []))
]

step-Narrows : (l : SerialLink) (e : Event) → Narrows l.tx_queue (lambda_of e) (step l e)
unfolding complete
step-Narrows l (starts_link answer) = Calm-Narrows l (start l answer) (start-Calm l answer)
step-Narrows l stops_link = Calm-Narrows l (stop l) (stop-Calm l)
step-Narrows l (completes (resolve g) c) =
    Calm-Narrows l (on_resolved l g c.ec) (on_resolved-Calm l g c.ec)
step-Narrows l (completes (connect g) c) =
    Calm-Narrows l (on_connected l g c.ec) (on_connected-Calm l g c.ec)
step-Narrows l (completes (read g) c) =
    Calm-Narrows l (on_read l g c.ec c.bytes) (on_read-Calm l g c.ec c.bytes)
step-Narrows l (completes (write g bytes) c) = on_written-Narrows l g c.ec
step-Narrows l (completes (posted bytes) c) = run_posted-Narrows l bytes

run_lem : (l : SerialLink) (es : List Event) → Narrows l.tx_queue (handed_over es) (run l es)
run_lem l [] = rw (append-nil (drop 1 l.tx_queue)) (Sublist.refl (drop 1 l.tx_queue))
run_lem l (e ∷ es) =
    let (l', effects) = step l e in
    let r = run l' es in
    rw
      (
        written-append effects r.1,
        append_assoc (written effects) (written r.1) (drop 1 r.0.tx_queue),
      )
      (Sublist.trans (Sublist.append (Sublist.refl (written effects)) (run_lem l' es)) (
        rw
          (
            sym (append_assoc (written effects) (drop 1 l'.tx_queue) (handed_over es)),
            sym (append_assoc (drop 1 l.tx_queue) (lambda_of e) (handed_over es)),
          )
          (Sublist.append (step-Narrows l e) (Sublist.refl (handed_over es)))))

-- From a link with an empty queue, over any starts, stops, losses of the connection, new connections
-- and completions, of any generation and with any answer: the packets whose write has begun, then
-- those that wait behind the front of the queue, are packets that lambdas of `write_bytes` handed
-- over, in that order and each at most once: a reconnection neither repeats nor reorders any.
pub run-sublist :
    (l : SerialLink) (es : List Event)
    → l.tx_queue ≡ []
    → let r = run l es in Sublist (written r.1 ++ drop 1 r.0.tx_queue) (handed_over es)
run-sublist l es empty =
    subst (λ (queue : List (List ℕ)). Narrows queue (handed_over es) (run l es)) empty
      (run_lem l es)
