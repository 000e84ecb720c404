-- ===== src/SerialLink/Errors.antt =====
-- Stale operations of the device link, and its errors.
use exn_gs.Common.{
  ℕ, ◌+◌, ◌^◌, ◌<◌, ◌≤◌, ◌≡◌, refl, arith, false, List, [], ◌∷◌, ◌++◌, some, Text, codes,
}
use exn_gs.SerialLink.{
  SerialLink, Pending, resolve, connect, read, write, posted, fails, stop, handle_io_error,
  run_posted, on_resolved, on_connected, on_read, on_written,
}
use exn_gs.SerialLink.World.{Completion, complete}
use exn_gs.SerialLink.Tally.{generation_of}

-- Once the link has been stopped, no operation that was started before changes it or calls back,
-- whatever it completes with; nor does a lambda that was posted before. (The generation counter does
-- not wrap round.)
stop-complete :
    (l : SerialLink) (p : Pending) (c : Completion)
    → l.generation + 1 < 2 ^ 64
    → generation_of p ≤ l.generation
    → complete (stop l).0 p c ≡ ((stop l).0, [])
unfolding stop complete on_resolved on_connected on_read on_written run_posted
stop-complete l (resolve g) c room past = ground arith
stop-complete l (connect g) c room past = ground arith
stop-complete l (read g) c room past = ground arith
stop-complete l (write g bytes) c room past = ground arith
stop-complete l (posted bytes) c room past = refl

-- When the read has failed and the write of the same generation is outstanding, the aborted write
-- reports a second error, with its own message, on a link that is already closed.
pub read_error-write_error :
    (l : SerialLink) (bytes : List ℕ) (first second : Text)
    → let g = l.generation in
      let failed = complete l (read g) (record { ec = some first; bytes = [] }) in
      let again = complete failed.0 (write g bytes) (record { ec = some second; bytes = [] }) in
      (failed.0.opened ≡ false)
      × (again.0 ≡ failed.0)
      × (again.1 ≡ fails (codes "device write failed" ++ codes ": " ++ second) ∷ [])
unfolding complete on_read on_written handle_io_error
read_error-write_error l bytes first second = ground arith
