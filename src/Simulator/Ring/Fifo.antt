-- ===== src/Simulator/Ring/Fifo.antt =====
-- sim/src/main.cpp: `RingQueue` under a sequence of pushes and pops.
use exn_gs.Common.{
  ℕ, zero, suc, ◌+◌, ◌%◌, ◌≡◌, refl, ap, List, [], ◌∷◌, ◌++◌, none, some, length, ltb, lt→ltb, true,
  false, if◌then◌else◌, inl, inr,
}
use exn_gs.Simulator.Ring.{
  RingQueue, IsRing, slots, count, contents, try_push, try_pop, try_push_lem, try_pop_lem,
}

pub data Call {ℓ} (A : Type ℓ) : Type ℓ where
  pushes : A → Call A
  pops : Call A

pub data Outcome {ℓ} (A : Type ℓ) : Type ℓ where
  pushed full empty : Outcome A
  popped : A → Outcome A

module _ {ℓ} {A : Type ℓ} where
  abbrev pub answers : RingQueue A → List (Call A) → List (Outcome A)
  answers q [] = []
  answers q (pushes v ∷ calls) = elim (try_push 64 q v) [
    | none ↦ full ∷ answers q calls
    | some q' ↦ pushed ∷ answers q' calls
  ]
  answers q (pops ∷ calls) = elim (try_pop 64 q) [
    | none ↦ empty ∷ answers q calls
    | some (v, q') ↦ popped v ∷ answers q' calls
  ]

  -- A queue that holds 63 elements at most.
  abbrev pub queue_answers : List A → List (Call A) → List (Outcome A)
  queue_answers waiting [] = []
  queue_answers waiting (pushes v ∷ calls) =
      if ltb (length waiting) 63
      then pushed ∷ queue_answers (waiting ++ v ∷ []) calls
      else full ∷ queue_answers waiting calls
  queue_answers [] (pops ∷ calls) = empty ∷ queue_answers [] calls
  queue_answers (v ∷ waiting) (pops ∷ calls) = popped v ∷ queue_answers waiting calls

  length-slots : (buf : ℕ → A) (from n : ℕ) → length (slots buf from n) ≡ n
  length-slots buf from zero = refl
  length-slots buf from (suc n) = ap suc (length-slots buf ((from + 1) % 64) n)

  -- With head and tail within the array of 64 slots: whatever is pushed and popped, in whatever
  -- order, each call answers as it does on a first-in first-out queue that holds at most 63 elements.
  answers-queue_answers :
      (q : RingQueue A) (calls : List (Call A))
      → IsRing q
      → answers q calls ≡ queue_answers (contents q) calls
  answers-queue_answers q [] ring = refl
  answers-queue_answers q (pushes v ∷ calls) ring = elim (try_push_lem q v ring) [
    | inl (e, many) ↦
        let not_fewer : ltb (length (contents q)) 63 ≡ false =
          rw (length-slots q.buf q.tail (count q), many) refl in
        rw (e, not_fewer, answers, queue_answers)
          (ap (λ (o : List (Outcome A)). full ∷ o) (answers-queue_answers q calls ring))
    | inr (q', e, room, ring', c) ↦
        let fewer : ltb (length (contents q)) 63 ≡ true =
          rw (length-slots q.buf q.tail (count q)) (lt→ltb (count q) 63 room) in
        rw (e, fewer, answers, queue_answers)
          (ap (λ (o : List (Outcome A)). pushed ∷ o)
            (rw c at (answers-queue_answers q' calls ring')))
  ]
  answers-queue_answers q (pops ∷ calls) ring = elim (try_pop_lem q ring) [
    | inl (e, c) ↦
        rw (e, c, answers, queue_answers)
          (ap (λ (o : List (Outcome A)). empty ∷ o) (rw c at (answers-queue_answers q calls ring)))
    | inr (v, q', e, ring', c) ↦
        rw (e, c, answers, queue_answers)
          (ap (λ (o : List (Outcome A)). popped v ∷ o) (answers-queue_answers q' calls ring'))
  ]
