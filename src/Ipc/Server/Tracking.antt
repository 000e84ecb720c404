-- ===== src/Ipc/Server/Tracking.antt =====
-- daemon/src/ipc_server.cpp: whom a broadcast reaches.
use exn_gs.Common.{
  ℕ, ◌≤◌, ◌≡◌, refl, sym, ◌∙◌, arith, true, false, List, [], ◌∷◌, ◌++◌, Option, none, some, Text,
  length, length-append, ◌==◌, if◌then◌else◌, Bool-cases, inl, inr, ltb, ltb→lt, ltb→le,
}
use exn_gs.Protocol.{Frame, encode}
use exn_gs.Ipc.{IpcSession, new_session, start}
use exn_gs.Ipc.Server.{
  IpcServer, new_server, lock, on_accepted, broadcast_loop, broadcast, expire, change,
}
use exn_gs.Ipc.Server.Store.{
  is_live, occurrences, posts_to, lock-append_old, lock-append_behind, lock-set, length-set,
  lock-change_at, length-change_at, occurrences-append, occurrences-kept, posts_to-loop,
}

-- What happens to the server.
pub data Call : Type 0 where
  accepted : Option Text → Call
  broadcasts : Frame → Call
  expires : ℕ → Call
  changes : ℕ → (IpcSession → IpcSession) → Call

abbrev pub run : IpcServer → List Call → IpcServer
run sv [] = sv
run sv (accepted ec ∷ cs) = run (on_accepted sv ec).0 cs
run sv (broadcasts f ∷ cs) = run (broadcast sv f).0 cs
run sv (expires n ∷ cs) = run (expire sv n) cs
run sv (changes n go ∷ cs) = run (change sv n go) cs

-- Each live session stands in the list once, and none that was not made.
abbrev IsTracked : IpcServer → Type 0
IsTracked sv =
    (n : ℕ)
    → (is_live (lock sv.store n) ≡ true → occurrences n sv.sessions ≡ 1)
      × (length sv.store ≤ n → occurrences n sv.sessions ≡ 0)

none_kept :
    (sv : IpcServer) (f : Frame) (n : ℕ)
    → occurrences n sv.sessions ≡ 0
    → occurrences n (broadcast_loop sv.store f sv.sessions).0 ≡ 0
none_kept sv f n e = elim (Bool-cases (is_live (lock sv.store n))) [
  | inl live ↦ rw (occurrences-kept sv.store f n sv.sessions, live) e
  | inr dead ↦ rw (occurrences-kept sv.store f n sv.sessions, dead) refl
]

accept-IsTracked :
    (sv : IpcServer)
    → IsTracked sv
    → IsTracked (record {
      store = sv.store ++ some new_session ∷ [];
      sessions = sv.sessions ++ length sv.store ∷ [];
    })
accept-IsTracked sv h n =
    let size = length sv.store in
    let count = occurrences-append n size sv.sessions in
    let longer = length-append sv.store (some new_session ∷ []) in
    let behind_all : length (sv.store ++ some new_session ∷ []) ≤ n
        → occurrences n (sv.sessions ++ size ∷ []) ≡ 0 =
      λ behind.
        (let other : (n == size) ≡ false = ground arith in
          let none_yet = (h n).1 (omega (arith, longer)) in rw (count, other, none_yet) refl) in
    elim (Bool-cases (ltb n size)) [
      | inl old ↦
          let l = ltb→lt n size old in
          let other : (n == size) ≡ false = ground arith in
          (
            λ live.
                (let once =
                    (h n).0 (rw (lock-append_old sv.store (some new_session) n l) at live) in
                  rw (count, other, once) refl),
            behind_all,
          )
      | inr new ↦
          let l = ltb→le n size new in
          elim (Bool-cases (n == size)) [
            | inl same ↦
                (λ live. (let none_yet = (h n).1 l in rw (count, same, none_yet) refl), behind_all)
            | inr other ↦
                let gone = lock-append_behind sv.store (some new_session) n (ground arith) in
                (λ live. (let dead = rw gone at live in cc), behind_all)
          ]
    ]

on_accepted-IsTracked :
    (sv : IpcServer) (ec : Option Text) → IsTracked sv → IsTracked (on_accepted sv ec).0
unfolding on_accepted start
on_accepted-IsTracked sv (some message) h = h
on_accepted-IsTracked sv none h = accept-IsTracked sv h

broadcast-IsTracked : (sv : IpcServer) (f : Frame) → IsTracked sv → IsTracked (broadcast sv f).0
unfolding broadcast
broadcast-IsTracked sv f h n = (
  λ live. rw (occurrences-kept sv.store f n sv.sessions, live) ((h n).0 live),
  λ behind. none_kept sv f n ((h n).1 behind),
)

expire-IsTracked : (sv : IpcServer) (m : ℕ) → IsTracked sv → IsTracked (expire sv m)
unfolding expire
expire-IsTracked sv m h n = (
  λ live. (h n).0 (lock-set sv.store m n live),
  λ behind. (h n).1 (omega (arith, length-set sv.store m)),
)

change-IsTracked :
    (sv : IpcServer) (m : ℕ) (go : IpcSession → IpcSession)
    → IsTracked sv
    → IsTracked (change sv m go)
unfolding change
change-IsTracked sv m go h n = (
  λ live. (h n).0 (sym (lock-change_at sv.store m n go) ∙ live),
  λ behind. (h n).1 (omega (arith, length-change_at sv.store m go)),
)

run-IsTracked : (sv : IpcServer) (cs : List Call) → IsTracked sv → IsTracked (run sv cs)
run-IsTracked sv [] h = h
run-IsTracked sv (accepted ec ∷ cs) h =
    run-IsTracked (on_accepted sv ec).0 cs (on_accepted-IsTracked sv ec h)
run-IsTracked sv (broadcasts f ∷ cs) h =
    run-IsTracked (broadcast sv f).0 cs (broadcast-IsTracked sv f h)
run-IsTracked sv (expires n ∷ cs) h = run-IsTracked (expire sv n) cs (expire-IsTracked sv n h)
run-IsTracked sv (changes n go ∷ cs) h =
    run-IsTracked (change sv n go) cs (change-IsTracked sv n go h)

-- Whatever clients came and went, and whatever was told before: a broadcast posts the frame once for every
-- session that is there, and for no other.
pub broadcast-once :
    (cs : List Call) (f : Frame) (n : ℕ)
    → let sv = run new_server cs in
      posts_to n (broadcast sv f).1 ≡ (if is_live (lock sv.store n) then encode f ∷ [] else [])
unfolding broadcast
broadcast-once cs f n =
    let sv = run new_server cs in
    let h = run-IsTracked new_server cs (λ m. (λ live. cc, λ behind. refl)) n in
    posts_to-loop sv.store f n sv.sessions ∙ elim (Bool-cases (is_live (lock sv.store n))) [
      | inl e ↦ rw (e, h.0 e) refl
      | inr e ↦ rw e refl
    ]
