-- ===== src/State/Ring.antt =====
-- The ring keeps the most recent elements.
use Prim.Native.Nat.{min}
use exn_gs.Common.{
  ℕ, zero, suc, ◌+◌, ◌-◌, ◌≤◌, ◌≡◌, sym, ap, ◌∙◌, arith, List, [], ◌∷◌, ◌++◌, length, length-append,
  length-drop, drop, drop-append_le, ltb, Bool-cases, ltb→lt, ltb→le, inl, inr,
}
use exn_gs.State.{trim}

module _ {ℓ} {A : Type ℓ} where
  -- The last `n` elements, or all if there are fewer.
  abbrev pub last : ℕ → List A → List A
  last n xs = drop (length xs - n) xs

  pub drop-drop : (i j : ℕ) (xs : List A) → drop j (drop i xs) ≡ drop (i + j) xs
  drop-drop zero j xs = let e : zero + j ≡ j = omega arith in rw e
  drop-drop (suc i) zero [] = let e : suc i + zero ≡ suc i = omega arith in rw e
  drop-drop (suc i) (suc j) [] = let e : suc i + suc j ≡ suc (i + suc j) = omega arith in rw e
  drop-drop (suc i) j (x ∷ xs) =
      let e : suc i + j ≡ suc (i + j) = omega arith in rw e (drop-drop i j xs)

  pub trim_lem : (cap : ℕ) (xs : List A) → trim cap xs ≡ last cap xs
  unfolding trim
  trim_lem cap [] = let e : zero - cap ≡ zero = omega arith in rw e
  trim_lem cap (x ∷ xs) = elim (Bool-cases (ltb cap (length (x ∷ xs)))) [
    | inl e ↦
        let over = ltb→lt cap (length (x ∷ xs)) e in
        let k : length (x ∷ xs) - cap ≡ suc (length xs - cap) = omega arith in
        rw (e, k) (trim_lem cap xs)
    | inr e ↦
        let fits = ltb→le cap (length (x ∷ xs)) e in
        let k : length (x ∷ xs) - cap ≡ zero = omega arith in rw (e, k)
  ]

  pub trim-append :
      (cap : ℕ) (xs : List A) (x : A) → trim cap (last cap xs ++ x ∷ []) ≡ last cap (xs ++ x ∷ [])
  trim-append cap xs x =
      let k = length xs - cap in
      let front : drop k xs ++ x ∷ [] ≡ drop k (xs ++ x ∷ []) =
        sym (drop-append_le k xs (x ∷ []) (omega arith)) in
      let ends : k + (length (drop k (xs ++ x ∷ [])) - cap) ≡ length (xs ++ x ∷ []) - cap =
        omega (arith, length-append xs (x ∷ []), length-drop k (xs ++ x ∷ [])) in
      trim_lem cap (last cap xs ++ x ∷ [])
      ∙ ap (last cap) front
      ∙ drop-drop k _ (xs ++ x ∷ [])
      ∙ ap (λ (n : ℕ). drop n (xs ++ x ∷ [])) ends

  pub last-last : (n m : ℕ) (xs : List A) → last n (last m xs) ≡ last (min n m) xs
  last-last n m xs =
      let k = length xs - m in
      let ends : k + (length (drop k xs) - n) ≡ length xs - min n m =
        omega (arith, length-drop k xs) in
      drop-drop k _ xs ∙ ap (λ (i : ℕ). drop i xs) ends

  pub last_all : (n : ℕ) (xs : List A) → length xs ≤ n → last n xs ≡ xs
  last_all n xs h = let e : length xs - n ≡ zero = omega arith in rw e
