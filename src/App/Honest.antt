-- ===== src/App/Honest.antt =====
-- The callbacks of the link's methods tell whether it is open.
use exn_gs.Common.{ℕ, ◌≡◌, refl, arith, Bool, false, List, [], ◌∷◌}
use exn_gs.SerialLink.{
  SerialLink, Pending, resolve, Effect, starts, state_changes, fails, bytes_arrive, PortAnswer,
  start, stop, write_bytes, run_posted, on_resolved, on_connected, on_read, on_written, Result,
}
use exn_gs.SerialLink.World.{Completion, complete}

-- What the callbacks of a link method tell of the link, after `before`.
abbrev pub told : Bool → List Effect → Bool
told before [] = before
told before (starts p ∷ es) = told before es
told before (state_changes opened detail ∷ es) = told opened es
told before (fails message ∷ es) = told false es
told before (bytes_arrive bytes ∷ es) = told before es

-- A link method tells the truth.
abbrev pub IsHonest : SerialLink → Result → Type 0
IsHonest l (l', effects) = told l.opened effects ≡ l'.opened

pub start-IsHonest : (l : SerialLink) (answer : PortAnswer) → IsHonest l (start l answer)
unfolding start
start-IsHonest l answer = ground arith

pub stop-IsHonest : (l : SerialLink) → IsHonest l (stop l)
unfolding stop
stop-IsHonest l = refl

pub write_bytes-IsHonest : (l : SerialLink) (bytes : List ℕ) → IsHonest l (write_bytes l bytes)
unfolding write_bytes
write_bytes-IsHonest l [] = refl
write_bytes-IsHonest l (b ∷ bytes) = refl

pub complete-IsHonest :
    (l : SerialLink) (p : Pending) (c : Completion) → IsHonest l (complete l p c)
unfolding complete on_resolved on_connected on_read on_written run_posted
complete-IsHonest l (resolve g) c = ground arith
complete-IsHonest l p c = ground arith
