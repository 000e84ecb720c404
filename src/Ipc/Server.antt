-- ===== src/Ipc/Server.antt =====
-- daemon/include/exn/daemon/ipc_server.hpp and daemon/src/ipc_server.cpp: the server and its sessions.
-- A session is shared by its handlers; the server keeps weak pointers, here indices into a store.
pub mod Store
pub mod Tracking
use exn_gs.Common.{
  ℕ, zero, suc, ◌+◌, Bool, true, false, List, [], ◌∷◌, ◌++◌, Option, none, some, Text, length, set,
  ◌==◌, if◌then◌else◌,
}
use exn_gs.Protocol.{Frame, encode}
use exn_gs.Ipc.{IpcSession, new_session, Effect, posts, send, start}

-- `store` is every session that was made: `none` is one that its last handler has let go of.
pub record IpcServer : Type 0 where
  pub store : List (Option IpcSession)
  pub sessions : List ℕ

abbrev pub new_server : IpcServer
new_server = record { store = []; sessions = [] }

-- What the server does: `of_session` is an effect of a session, `connects` calls `on_connect_`, `accepts`
-- begins to accept.
pub data ServerEffect : Type 0 where
  of_session : ℕ → Effect → ServerEffect
  connects : ℕ → ServerEffect
  accepts : ServerEffect

abbrev pub of_all : ℕ → List Effect → List ServerEffect
of_all n [] = []
of_all n (e ∷ es) = of_session n e ∷ of_all n es

-- `lock()`
abbrev pub lock : List (Option IpcSession) → ℕ → Option IpcSession
lock [] n = none
lock (s ∷ store) zero = s
lock (s ∷ store) (suc n) = lock store n

-- The handler of `async_accept`; `some message` is an error code.
unfoldable pub on_accepted : IpcServer → Option Text → IpcServer × List ServerEffect
on_accepted sv (some message) = (sv, accepts ∷ [])
on_accepted sv none =
    let n = length sv.store in
    let (s, effects) = start new_session in
    (
      record { store = sv.store ++ some s ∷ []; sessions = sv.sessions ++ n ∷ [] },
      of_all n effects ++ connects n ∷ accepts ∷ [],
    )

-- The loop of `broadcast`: the pointers that stay, and what is done.
abbrev pub broadcast_loop : List (Option IpcSession) → Frame → List ℕ → List ℕ × List ServerEffect
broadcast_loop store f [] = ([], [])
broadcast_loop store f (n ∷ ns) =
    let (kept, effects) = broadcast_loop store f ns in
    elim (lock store n) [
      | none ↦ (kept, effects)
      | some s ↦ (n ∷ kept, of_all n (send f) ++ effects)
    ]

unfoldable pub broadcast : IpcServer → Frame → IpcServer × List ServerEffect
broadcast sv f =
    let (kept, effects) = broadcast_loop sv.store f sv.sessions in
    (record sv { sessions = kept }, effects)

-- The last handler of a session has ended.
unfoldable pub expire : IpcServer → ℕ → IpcServer
expire sv n = record sv { store = set sv.store n none }

abbrev pub change_at :
    List (Option IpcSession) → ℕ → (IpcSession → IpcSession) → List (Option IpcSession)
change_at [] n go = []
change_at (none ∷ store) zero go = none ∷ store
change_at (some s ∷ store) zero go = some (go s) ∷ store
change_at (s ∷ store) (suc n) go = s ∷ change_at store n go

-- A session's own handler has run.
unfoldable pub change : IpcServer → ℕ → (IpcSession → IpcSession) → IpcServer
change sv n go = record sv { store = change_at sv.store n go }
