-- ===== src/Simulator/Ring.antt =====
-- sim/src/main.cpp: `RingQueue`, one round of its methods.
pub mod Fifo
pub mod Threads
use exn_gs.Common.{
  ℕ, zero, suc, ◌+◌, ◌-◌, ◌%◌, ◌<◌, ◌≤◌, ◌⊎◌, inl, inr, Bool-cases, ◌≡◌, refl, ap, arith, List, [],
  ◌∷◌, ◌++◌, Option, none, some, ◌==◌, if◌then◌else◌,
}

-- The array as a function of the index.
pub record RingQueue {ℓ} (A : Type ℓ) : Type ℓ where
  pub buf : ℕ → A
  pub head : ℕ
  pub tail : ℕ

module _ {ℓ} {A : Type ℓ} where
  -- `buf_[i] = v`
  abbrev pub write_slot : (ℕ → A) → ℕ → A → ℕ → A
  write_slot buf i v j = if j == i then v else buf j

  -- `none` where the queue is full; `size` is the template argument.
  unfoldable pub try_push : ℕ → RingQueue A → A → Option (RingQueue A)
  try_push size q v =
      if (q.head + 1) % size == q.tail
      then none
      else some (record q { buf = write_slot q.buf q.head v; head = (q.head + 1) % size })

  -- `none` where the queue is empty.
  unfoldable pub try_pop : ℕ → RingQueue A → Option (A × RingQueue A)
  try_pop size q =
      if q.tail == q.head
      then none
      else some (q.buf q.tail, record q { tail = (q.tail + 1) % size })

  -- The elements of `count` slots from `from` on, round the array of 64.
  abbrev pub slots : (ℕ → A) → ℕ → ℕ → List A
  slots buf from zero = []
  slots buf from (suc count) = buf from ∷ slots buf ((from + 1) % 64) count

  abbrev pub count : RingQueue A → ℕ
  count q = (q.head + 64 - q.tail) % 64

  -- What waits in the queue, the oldest first.
  abbrev pub contents : RingQueue A → List A
  contents q = slots q.buf q.tail (count q)

  abbrev pub IsRing : RingQueue A → Type 0
  IsRing q = (q.head < 64) × (q.tail < 64)

  slots_last :
      (buf : ℕ → A) (from n : ℕ)
      → from < 64
      → slots buf from (suc n) ≡ slots buf from n ++ buf ((from + n) % 64) ∷ []
  slots_last buf from zero h = let e : (from + 0) % 64 ≡ from = omega arith in rw e refl
  slots_last buf from (suc n) h =
      let e : (from + suc n) % 64 ≡ ((from + 1) % 64 + n) % 64 = omega arith in
      rw e (ap (λ (xs : List A). buf from ∷ xs) (slots_last buf ((from + 1) % 64) n (omega arith)))

  -- A slot that is not among them may be written.
  slots_write :
      (buf : ℕ → A) (i : ℕ) (v : A) (from n : ℕ)
      → from < 64
      → i < 64
      → n ≤ (i + 64 - from) % 64
      → slots (write_slot buf i v) from n ≡ slots buf from n
  slots_write buf i v from zero h l fits = refl
  slots_write buf i v from (suc n) h l fits =
      let here : write_slot buf i v from ≡ buf from = ground arith in
      rw here (
        ap (λ (xs : List A). buf from ∷ xs)
          (slots_write buf i v ((from + 1) % 64) n (omega arith) l (omega arith)))

  pushed :
      (q : RingQueue A) (v : A)
      → q.head < 64
      → q.tail < 64
      → count q < 63
      → slots (write_slot q.buf q.head v) q.tail (((q.head + 1) % 64 + 64 - q.tail) % 64)
        ≡ contents q ++ v ∷ []
  pushed q v h t room =
      let longer : ((q.head + 1) % 64 + 64 - q.tail) % 64 ≡ suc (count q) = omega arith in
      let place : (q.tail + count q) % 64 ≡ q.head = omega arith in
      let written : write_slot q.buf q.head v q.head ≡ v = ground arith in
      rw
        (
          longer,
          slots_last (write_slot q.buf q.head v) q.tail (count q) t,
          slots_write q.buf q.head v q.tail (count q) t h (omega arith),
          place,
          written,
        )
        refl

  -- With head and tail within the array of 64 slots: a push succeeds exactly while fewer than 63
  -- elements wait, and puts its element behind them all.
  try_push_lem :
      (q : RingQueue A) (v : A)
      → IsRing q
      → ((try_push 64 q v ≡ none) × (count q ≡ 63))
        ⊎ ((q' : RingQueue A) × (try_push 64 q v ≡ some q')
            × (count q < 63)
            × IsRing q'
            × (contents q' ≡ contents q ++ v ∷ []))
  unfolding try_push
  try_push_lem q v (h, t) = elim (Bool-cases ((q.head + 1) % 64 == q.tail)) [
    | inl e ↦ inl (rw e refl, ground (arith, e))
    | inr e ↦
        let room : count q < 63 = ground (arith, e) in
        inr (
          record q { buf = write_slot q.buf q.head v; head = (q.head + 1) % 64 },
          rw e refl,
          room,
          (omega arith, t),
          pushed q v h t room,
        )
  ]

  -- With head and tail within the array of 64 slots: a pop fails exactly when nothing waits, and
  -- else takes the oldest element.
  try_pop_lem :
      (q : RingQueue A)
      → IsRing q
      → ((try_pop 64 q ≡ none) × (contents q ≡ []))
        ⊎ ((v : A) × (q' : RingQueue A) × (try_pop 64 q ≡ some (v, q'))
            × IsRing q'
            × (contents q ≡ v ∷ contents q'))
  unfolding try_pop
  try_pop_lem q (h, t) = elim (Bool-cases (q.tail == q.head)) [
    | inl e ↦
        let none_left : count q ≡ 0 = ground (arith, e) in
        inl (rw e refl, ap (slots q.buf q.tail) none_left)
    | inr e ↦
        let more : count q ≡ suc ((q.head + 64 - (q.tail + 1) % 64) % 64) = ground (arith, e) in
        inr (
          q.buf q.tail,
          record q { tail = (q.tail + 1) % 64 },
          rw e refl,
          (h, omega arith),
          ap (slots q.buf q.tail) more,
        )
  ]
