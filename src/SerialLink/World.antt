-- ===== src/SerialLink/World.antt =====
-- The link among its outstanding operations. The event loop runs one method, completion handler or
-- posted lambda at a time, to its end; which one, and what the operation answers, is open.
use exn_gs.Common.{ℕ, ◌+◌, ◌^◌, ◌<◌, ◌≡◌, List, [], ◌∷◌, ◌++◌, Option, Text}
use exn_gs.SerialLink.{
  SerialLink, Pending, resolve, connect, read, write, posted, Effect, starts, state_changes, fails,
  bytes_arrive, Result, PortAnswer, start, stop, write_bytes, run_posted, on_resolved, on_connected,
  on_read, on_written,
}

pub record World : Type 0 where
  pub link : SerialLink
  pub pending : List Pending

-- What an operation completes with.
pub record Completion : Type 0 where
  pub ec : Option Text
  pub bytes : List ℕ

unfoldable pub complete : SerialLink → Pending → Completion → Result
complete l (resolve g) c = on_resolved l g c.ec
complete l (connect g) c = on_connected l g c.ec
complete l (read g) c = on_read l g c.ec c.bytes
complete l (write g bytes) c = on_written l g c.ec
complete l (posted bytes) c = run_posted l bytes

abbrev pub started : List Effect → List Pending
started [] = []
started (starts p ∷ es) = p ∷ started es
started (state_changes opened detail ∷ es) = started es
started (fails message ∷ es) = started es
started (bytes_arrive bytes ∷ es) = started es

abbrev pub after : List Pending → Result → World
after ps (l, effects) = record { link = l; pending = ps ++ started effects }

-- The generation counter is far from wrapping round: a start or stop takes it up by one.
pub data Step (w : World) : World → Type 0 where
  starts_link :
      (answer : PortAnswer)
      → w.link.generation + 1 < 2 ^ 64
      → Step w (after w.pending (start w.link answer))
  stops_link : w.link.generation + 1 < 2 ^ 64 → Step w (after w.pending (stop w.link))
  writes_bytes : (bytes : List ℕ) → Step w (after w.pending (write_bytes w.link bytes))
  completes :
      (front back : List Pending) (p : Pending) (c : Completion)
      → w.pending ≡ front ++ p ∷ back
      → Step w (after (front ++ back) (complete w.link p c))

pub data Reach (w : World) : World → Type 0 where
  here : Reach w w
  next : {u v : World} → Reach w u → Step u v → Reach w v
