-- ===== src/Ipc/Server/Store.antt =====
-- daemon/src/ipc_server.cpp: the sessions that are there, and the loop of a broadcast over them.
use exn_gs.Common.{
  ℕ, zero, suc, ◌+◌, ◌<◌, ◌≡◌, refl, ap, ◌∙◌, arith, Bool, true, false, List, [], ◌∷◌, ◌++◌, Option,
  none, some, length, set, ◌==◌, if◌then◌else◌, Option-cases, Bool-cases, inl, inr, ==_iff,
  replicate,
}
use exn_gs.Protocol.{Frame, encode}
use exn_gs.Ipc.{IpcSession, posts, writes, delivers, reads, undefined, send}
use exn_gs.Ipc.Server.{ServerEffect, of_session, connects, accepts, lock, broadcast_loop, change_at}

abbrev pub is_live : Option IpcSession → Bool
is_live none = false
is_live (some s) = true

-- How often a session stands in the list.
abbrev pub occurrences : ℕ → List ℕ → ℕ
occurrences n [] = 0
occurrences n (m ∷ ms) = if n == m then suc (occurrences n ms) else occurrences n ms

pub lock-append_old :
    (store : List (Option IpcSession)) (s : Option IpcSession) (n : ℕ)
    → n < length store
    → lock (store ++ s ∷ []) n ≡ lock store n
lock-append_old [] s n h = absurd (omega arith)
lock-append_old (x ∷ store) s zero h = refl
lock-append_old (x ∷ store) s (suc n) h = lock-append_old store s n (omega arith)

pub lock-append_behind :
    (store : List (Option IpcSession)) (s : Option IpcSession) (n : ℕ)
    → length store < n
    → lock (store ++ s ∷ []) n ≡ none
lock-append_behind [] s zero h = absurd (omega arith)
lock-append_behind [] s (suc n) h = refl
lock-append_behind (x ∷ store) s zero h = absurd (omega arith)
lock-append_behind (x ∷ store) s (suc n) h = lock-append_behind store s n (omega arith)

pub lock-set :
    (store : List (Option IpcSession)) (m n : ℕ)
    → is_live (lock (set store m none) n) ≡ true
    → is_live (lock store n) ≡ true
lock-set [] m n h = h
lock-set (x ∷ store) zero zero h = cc
lock-set (x ∷ store) zero (suc n) h = h
lock-set (x ∷ store) (suc m) zero h = h
lock-set (x ∷ store) (suc m) (suc n) h = lock-set store m n h

pub length-set :
    (store : List (Option IpcSession)) (m : ℕ) → length (set store m none) ≡ length store
length-set [] m = refl
length-set (x ∷ store) zero = refl
length-set (x ∷ store) (suc m) = ap suc (length-set store m)

pub lock-change_at :
    (store : List (Option IpcSession)) (m n : ℕ) (go : IpcSession → IpcSession)
    → is_live (lock (change_at store m go) n) ≡ is_live (lock store n)
lock-change_at [] m n go = refl
lock-change_at (none ∷ store) zero zero go = refl
lock-change_at (some x ∷ store) zero zero go = refl
lock-change_at (none ∷ store) zero (suc n) go = refl
lock-change_at (some x ∷ store) zero (suc n) go = refl
lock-change_at (x ∷ store) (suc m) zero go = refl
lock-change_at (x ∷ store) (suc m) (suc n) go = lock-change_at store m n go

pub length-change_at :
    (store : List (Option IpcSession)) (m : ℕ) (go : IpcSession → IpcSession)
    → length (change_at store m go) ≡ length store
length-change_at [] m go = refl
length-change_at (none ∷ store) zero go = refl
length-change_at (some x ∷ store) zero go = refl
length-change_at (x ∷ store) (suc m) go = ap suc (length-change_at store m go)

pub occurrences-append :
    (n m : ℕ) (ms : List ℕ)
    → occurrences n (ms ++ m ∷ []) ≡ occurrences n ms + (if n == m then 1 else 0)
occurrences-append n m [] = ground arith
occurrences-append n m (x ∷ ms) = ground (arith, occurrences-append n m ms)

-- The pointers that a broadcast keeps.
pub occurrences-kept :
    (store : List (Option IpcSession)) (f : Frame) (n : ℕ) (ms : List ℕ)
    → occurrences n (broadcast_loop store f ms).0
      ≡ (if is_live (lock store n) then occurrences n ms else 0)
occurrences-kept store f n [] = ground arith
occurrences-kept store f n (m ∷ ms) =
    let ih = occurrences-kept store f n ms in
    elim (Bool-cases (n == m)) [
      | inl same ↦
          let e : lock store n ≡ lock store m = ap (lock store) ((==_iff n m).0 same) in
          elim (Option-cases (lock store m)) [
            | inl gone ↦
                let gone' = e ∙ gone in
                let ih' = rw gone' at ih in rw (gone, gone', broadcast_loop) ih'
            | inr (x, there) ↦
                let there' = e ∙ there in
                let ih' = rw there' at ih in rw (there, there', same, broadcast_loop) (ap suc ih')
          ]
      | inr other ↦ elim (Option-cases (lock store m)) [
        | inl gone ↦ rw (gone, other, broadcast_loop) ih
        | inr (x, there) ↦ rw (there, other, broadcast_loop) ih
      ]
    ]

-- The bytes that are posted for a session.
abbrev pub posts_to : ℕ → List ServerEffect → List (List ℕ)
posts_to n [] = []
posts_to n (of_session m (posts bytes) ∷ es) =
    if n == m then bytes ∷ posts_to n es else posts_to n es
posts_to n (of_session m (writes bytes) ∷ es) = posts_to n es
posts_to n (of_session m (delivers f) ∷ es) = posts_to n es
posts_to n (of_session m reads ∷ es) = posts_to n es
posts_to n (of_session m undefined ∷ es) = posts_to n es
posts_to n (connects m ∷ es) = posts_to n es
posts_to n (accepts ∷ es) = posts_to n es

pub posts_to-loop :
    (store : List (Option IpcSession)) (f : Frame) (n : ℕ) (ms : List ℕ)
    → posts_to n (broadcast_loop store f ms).1
      ≡ (if is_live (lock store n) then replicate (occurrences n ms) (encode f) else [])
unfolding send
posts_to-loop store f n [] = elim (Bool-cases (is_live (lock store n))) [
  | inl e ↦ rw e refl
  | inr e ↦ rw e refl
]
posts_to-loop store f n (m ∷ ms) =
    let ih = posts_to-loop store f n ms in
    elim (Bool-cases (n == m)) [
      | inl same ↦
          let e : lock store n ≡ lock store m = ap (lock store) ((==_iff n m).0 same) in
          elim (Option-cases (lock store m)) [
            | inl gone ↦
                let gone' = e ∙ gone in
                let ih' = rw gone' at ih in rw (gone, gone', broadcast_loop) ih'
            | inr (x, there) ↦
                let there' = e ∙ there in
                let ih' = rw there' at ih in
                rw (there, there', same, broadcast_loop)
                  (ap (λ (l : List (List ℕ)). encode f ∷ l) ih')
          ]
      | inr other ↦ elim (Option-cases (lock store m)) [
        | inl gone ↦ rw (gone, other, broadcast_loop) ih
        | inr (x, there) ↦ rw (there, other, broadcast_loop) ih
      ]
    ]
