-- ===== src/SerialLink/Order.antt =====
-- One write and one read at a time.
use mathlib.Core.Path.{subst}
use exn_gs.Common.{
  ℕ, ◌+◌, ◌^◌, ◌≤◌, ◌<◌, ◌≡◌, ◌⊎◌, inl, inr, sym, ap, arith, Bool, true, false, List, [], ◌∷◌, ◌++◌,
  Option, some, Text, All, All-append, ◌==◌, if◌then◌else◌, append-nil,
}
use exn_gs.SerialLink.{
  SerialLink, Pending, resolve, connect, read, write, posted, Result, PortAnswer, start, stop,
  write_bytes, run_posted, on_resolved, on_connected, on_read, on_written, new_link,
}
use exn_gs.SerialLink.Tally.{
  is_write, is_read, is_handshake, tally, tally-append, tally-remove, tally-fresh, generation_of,
  IsPast, front_writes,
}
use exn_gs.SerialLink.World.{
  World, Completion, complete, started, after, Step, starts_link, stops_link, writes_bytes,
  completes, Reach, here, next,
}

-- What `writes`, `reads` and `handshakes` of the current generation are outstanding.
abbrev pub Phase : SerialLink → ℕ → ℕ → ℕ → Type 0
Phase l writes reads handshakes =
    ((l.opened ≡ true) × (handshakes ≡ 0) × (reads ≡ 1) × (writes ≡ front_writes l.tx_queue))
    ⊎ ((l.opened ≡ false) × (l.tx_queue ≡ []) × (handshakes ≡ 0) × (reads ≤ 1) × (writes ≤ 1))
    ⊎ ((l.opened ≡ false) × (l.tx_queue ≡ []) × (handshakes ≡ 1) × (reads ≡ 0) × (writes ≡ 0))

abbrev one : Bool → ℕ
one b = if b then 1 else 0

-- A result `(l', effects)` of a handler in a state `l` with these other operations outstanding.
abbrev Keeps : SerialLink → ℕ → ℕ → ℕ → Result → Type 0
Keeps l writes reads handshakes (l', effects) =
    let g = l'.generation in
    (g ≡ l.generation)
    × Phase l' (writes + tally (is_write g) (started effects))
        (reads + tally (is_read g) (started effects))
        (handshakes + tally (is_handshake g) (started effects))
    × IsPast g (started effects)

module _ (l : SerialLink) (writes reads handshakes : ℕ) where
  on_written-Keeps :
      (g : ℕ) (ec : Option Text)
      → Phase l (one (l.generation == g) + writes) reads handshakes
      → Keeps l writes reads handshakes (on_written l g ec)
  unfolding on_written
  on_written-Keeps g ec h = ground arith

  on_read-Keeps :
      (g : ℕ) (ec : Option Text) (bytes : List ℕ)
      → Phase l writes (one (l.generation == g) + reads) handshakes
      → Keeps l writes reads handshakes (on_read l g ec bytes)
  unfolding on_read
  on_read-Keeps g ec bytes h = ground arith

  on_resolved-Keeps :
      (g : ℕ) (ec : Option Text)
      → Phase l writes reads (one (l.generation == g) + handshakes)
      → Keeps l writes reads handshakes (on_resolved l g ec)
  unfolding on_resolved
  on_resolved-Keeps g ec h = ground arith

  on_connected-Keeps :
      (g : ℕ) (ec : Option Text)
      → Phase l writes reads (one (l.generation == g) + handshakes)
      → Keeps l writes reads handshakes (on_connected l g ec)
  unfolding on_connected
  on_connected-Keeps g ec h = ground arith

  run_posted-Keeps :
      (bytes : List ℕ)
      → Phase l writes reads handshakes
      → Keeps l writes reads handshakes (run_posted l bytes)
  unfolding run_posted
  run_posted-Keeps bytes h = ground arith

  write_bytes-Keeps :
      (bytes : List ℕ)
      → Phase l writes reads handshakes
      → Keeps l writes reads handshakes (write_bytes l bytes)
  unfolding write_bytes
  write_bytes-Keeps [] h = ground arith
  write_bytes-Keeps (b ∷ bytes) h = ground arith

  complete-Keeps :
      (p : Pending) (c : Completion)
      → Phase l
          (one (is_write l.generation p) + writes)
          (one (is_read l.generation p) + reads)
          (one (is_handshake l.generation p) + handshakes)
      → Keeps l writes reads handshakes (complete l p c)
  unfolding complete
  complete-Keeps (resolve g) c h = on_resolved-Keeps g c.ec (ground arith)
  complete-Keeps (connect g) c h = on_connected-Keeps g c.ec (ground arith)
  complete-Keeps (read g) c h = on_read-Keeps g c.ec c.bytes (ground arith)
  complete-Keeps (write g bytes) c h = on_written-Keeps g c.ec (ground arith)
  complete-Keeps (posted bytes) c h = run_posted-Keeps bytes (ground arith)

-- A start or stop that does nothing, or that begins a new generation.
abbrev Begins : SerialLink → Result → Type 0
Begins l (l', effects) =
    let g = l'.generation in
    ((l' ≡ l) × (effects ≡ []))
    ⊎ ((g ≡ l.generation + 1)
        × Phase l' (tally (is_write g) (started effects)) (tally (is_read g) (started effects))
            (tally (is_handshake g) (started effects))
        × IsPast g (started effects))

module _ (l : SerialLink) (room : l.generation + 1 < 2 ^ 64) where
  start-Begins :
      (answer : PortAnswer) → (l.opened ≡ true) ⊎ (l.tx_queue ≡ []) → Begins l (start l answer)
  unfolding start
  start-Begins answer h = ground arith

  stop-Begins : Begins l (stop l)
  unfolding stop
  stop-Begins = ground arith

-- At most one write and at most one read of the current generation are outstanding. While the link
-- is open exactly one read is, and exactly one write if packets wait in the queue; while it is
-- closed the queue is empty.
abbrev pub IsOrdered : World → Type 0
IsOrdered w =
    let g = w.link.generation in
    Phase w.link (tally (is_write g) w.pending) (tally (is_read g) w.pending)
      (tally (is_handshake g) w.pending)
    × IsPast g w.pending

after-Keeps :
    (l : SerialLink) (ps : List Pending) (r : Result)
    → Keeps l
        (tally (is_write l.generation) ps)
        (tally (is_read l.generation) ps)
        (tally (is_handshake l.generation) ps)
        r
    → IsPast l.generation ps
    → IsOrdered (after ps r)
after-Keeps l ps (l', effects) (same, phase, past) h =
    let g = l'.generation in
    let new = started effects in
    (
      ground (
        arith,
        tally-append (is_write g) ps new,
        tally-append (is_read g) ps new,
        tally-append (is_handshake g) ps new,
        ap (λ (k : ℕ). tally (is_write k) ps) same,
        ap (λ (k : ℕ). tally (is_read k) ps) same,
        ap (λ (k : ℕ). tally (is_handshake k) ps) same,
      ),
      All-append (λ p. generation_of p ≤ g) ps new (subst (λ k. IsPast k ps) (sym same) h) past,
    )

IsPast-mono : (g : ℕ) (ps : List Pending) → IsPast g ps → IsPast (g + 1) ps
IsPast-mono g [] h = tt
IsPast-mono g (p ∷ ps) h = (omega arith, IsPast-mono g ps h.1)

after-Begins :
    (l : SerialLink) (ps : List Pending) (r : Result)
    → IsOrdered (record { link = l; pending = ps })
    → Begins l r
    → IsOrdered (after ps r)
after-Begins l ps (l', effects) h (inl (same, nothing)) =
    subst (λ k. IsOrdered (record { link = k; pending = ps ++ started effects })) (sym same)
      (rw (nothing, append-nil) h)
after-Begins l ps (l', effects) h (inr (fresh, phase, past)) =
    let g = l'.generation in
    let new = started effects in
    (
      ground (
        arith,
        tally-append (is_write g) ps new,
        tally-append (is_read g) ps new,
        tally-append (is_handshake g) ps new,
        ap (λ (k : ℕ). tally (is_write k) ps) fresh,
        ap (λ (k : ℕ). tally (is_read k) ps) fresh,
        ap (λ (k : ℕ). tally (is_handshake k) ps) fresh,
        tally-fresh l.generation ps h.1,
      ),
      All-append (λ p. generation_of p ≤ g) ps new
          (subst (λ k. IsPast k ps) (sym fresh) (IsPast-mono l.generation ps h.1)) past,
    )

can_start : (l : SerialLink) (w r h : ℕ) → Phase l w r h → (l.opened ≡ true) ⊎ (l.tx_queue ≡ [])
can_start l w r h (inl a) = inl a.0
can_start l w r h (inr (inl b)) = inr b.1
can_start l w r h (inr (inr c)) = inr c.1

All-remove {ℓ κ} :
    {A : Type ℓ} (P : A → Type κ) (xs ys : List A) (x : A) → All P (xs ++ x ∷ ys) → All P (xs ++ ys)
All-remove P [] ys x h = h.1
All-remove P (y ∷ xs) ys x h = (h.0, All-remove P xs ys x h.1)

-- Whatever runs next, the order of writes and reads is kept.
pub Step-IsOrdered : {w v : World} → Step w v → IsOrdered w → IsOrdered v
Step-IsOrdered {w} (starts_link answer room) h =
    after-Begins w.link w.pending (start w.link answer) h
      (start-Begins w.link room answer (can_start w.link _ _ _ h.0))
Step-IsOrdered {w} (stops_link room) h =
    after-Begins w.link w.pending (stop w.link) h (stop-Begins w.link room)
Step-IsOrdered {w} (writes_bytes bytes) h =
    after-Keeps w.link w.pending (write_bytes w.link bytes)
      (write_bytes-Keeps w.link _ _ _ bytes h.0) h.1
Step-IsOrdered {w} (completes front back p c e) h =
    let l = w.link in
    let g = l.generation in
    let whole : IsOrdered (record { link = l; pending = front ++ p ∷ back }) =
      subst (λ ps. IsOrdered (record { link = l; pending = ps })) e h in
    let phase : Phase l (one (is_write g p) + tally (is_write g) (front ++ back))
        (one (is_read g p) + tally (is_read g) (front ++ back))
        (one (is_handshake g p) + tally (is_handshake g) (front ++ back)) =
      rw
        (
          tally-remove (is_write g) front back p,
          tally-remove (is_read g) front back p,
          tally-remove (is_handshake g) front back p,
        )
        at whole.0 in
    after-Keeps l (front ++ back) (complete l p c) (complete-Keeps l _ _ _ p c phase)
      (All-remove (λ q. generation_of q ≤ g) front back p whole.1)

Reach-IsOrdered : {w v : World} → Reach w v → IsOrdered w → IsOrdered v
Reach-IsOrdered here h = h
Reach-IsOrdered (next r st) h = Step-IsOrdered st (Reach-IsOrdered r h)

new_link-IsOrdered :
    (port : Text) (l : SerialLink)
    → new_link port ≡ some l
    → IsOrdered (record { link = l; pending = [] })
unfolding new_link
new_link-IsOrdered port l e = ground arith

-- In every world that a new link can reach, whatever the device, the clients and the event loop do:
-- at most one write and at most one read of the current generation are outstanding; while the link
-- is open, exactly one read is, and exactly one write if packets wait in the queue; while it is
-- closed, its queue is empty. (In `Step`, the generation counter does not wrap round.)
pub new_link-Reach :
    (port : Text) (l : SerialLink) (v : World)
    → new_link port ≡ some l
    → Reach (record { link = l; pending = [] }) v
    → IsOrdered v
new_link-Reach port l v e r = Reach-IsOrdered r (new_link-IsOrdered port l e)
