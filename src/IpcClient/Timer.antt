-- ===== src/IpcClient/Timer.antt =====
-- The client's reconnection timer.
use exn_gs.Common.{
  ℕ, ◌+◌, ◌-◌, ◌≤◌, ◌<◌, ◌≡◌, refl, arith, List, [], ◌∷◌, ◌++◌, Option, none, some, Text,
  if◌then◌else◌,
}
use exn_gs.Protocol.{Frame}
use exn_gs.Protocol.Stream.{receive}
use exn_gs.IpcClient.{
  IpcClient, Effect, reads, waits, undefined, Result, new_client, do_connect, schedule_reconnect,
  set_connected, on_resolved, on_connected, on_read, do_write, on_written, run_posted, on_timer,
  arrive_all,
}

-- The client with the number of its timers that are outstanding.
pub record World : Type 0 where
  pub client : IpcClient
  pub timers : ℕ

-- What may complete or run at any time, but for the timer.
pub data Event : Type 0 where
  resolved connects_to : Option Text → Event
  read_ends : Option Text → List ℕ → Event
  write_ends : Option Text → Event
  runs_posted : List ℕ → Event

unfoldable pub dispatch_event : IpcClient → Event → Result
dispatch_event c (resolved ec) = on_resolved c ec
dispatch_event c (connects_to ec) = on_connected c ec
dispatch_event c (read_ends ec bytes) = on_read c ec bytes
dispatch_event c (write_ends ec) = on_written c ec
dispatch_event c (runs_posted bytes) = run_posted c bytes

abbrev pub timers_of : List Effect → ℕ
timers_of [] = 0
timers_of (waits ∷ es) = 1 + timers_of es
timers_of (_ ∷ es) = timers_of es

abbrev pub after : ℕ → Result → World
after n (c, effects) = record { client = c; timers = n + timers_of effects }

pub data Step (w : World) : World → Type 0 where
  handles : (e : Event) → Step w (after w.timers (dispatch_event w.client e))
  timer_ends :
      (ec : Option Text) → 0 < w.timers → Step w (after (w.timers - 1) (on_timer w.client ec))

pub data Reach (w : World) : World → Type 0 where
  here : Reach w w
  next : {u v : World} → Reach w u → Step u v → Reach w v

abbrev pub IsTimed : World → Type 0
IsTimed w = w.timers ≤ (if w.client.reconnect_scheduled then 1 else 0)

timers_of-arrive_all :
    (fs : List Frame) (es : List Effect) → timers_of (arrive_all fs ++ es) ≡ timers_of es
timers_of-arrive_all [] es = refl
timers_of-arrive_all (f ∷ fs) es = timers_of-arrive_all fs es

dispatch_event-IsTimed :
    (c : IpcClient) (n : ℕ) (e : Event)
    → IsTimed (record { client = c; timers = n })
    → IsTimed (after n (dispatch_event c e))
unfolding dispatch_event on_resolved on_connected on_read on_written run_posted do_write
    schedule_reconnect set_connected
dispatch_event-IsTimed c n (resolved ec) h = ground arith
dispatch_event-IsTimed c n (connects_to ec) h = ground arith
dispatch_event-IsTimed c n (read_ends (some message) bytes) h = ground arith
dispatch_event-IsTimed c n (read_ends none bytes) h =
    let r = receive c.rxbuf bytes in
    rw (timers_of-arrive_all r.frames (if r.broken then undefined ∷ [] else reads ∷ []))
      (ground arith)
dispatch_event-IsTimed c n (write_ends ec) h = ground arith
dispatch_event-IsTimed c n (runs_posted bytes) h = ground arith

Step-IsTimed : {w v : World} → Step w v → IsTimed w → IsTimed v
unfolding on_timer do_connect
Step-IsTimed {w} (handles e) h = dispatch_event-IsTimed w.client w.timers e h
Step-IsTimed {w} (timer_ends (some message) some_left) h = ground arith
Step-IsTimed {w} (timer_ends none some_left) h = ground arith

Reach-IsTimed : {w v : World} → Reach w v → IsTimed w → IsTimed v
Reach-IsTimed here h = h
Reach-IsTimed (next r st) h = Step-IsTimed st (Reach-IsTimed r h)

-- From the start of a client on, whatever completes in whatever order and with whatever answers: at
-- most one reconnection timer is outstanding, and none while no reconnection is scheduled.
pub do_connect-Reach :
    (host : Text) (port : ℕ) (v : World)
    → Reach (after 0 (do_connect (new_client host port))) v
    → IsTimed v
do_connect-Reach host port v r = Reach-IsTimed r (unfold do_connect in omega arith)
