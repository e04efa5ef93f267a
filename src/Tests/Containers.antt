-- ===== src/Tests/Containers.antt =====
-- A queue on a list, which shows that what is assumed of the engine's queues can hold.
use yellowstone.Prelude.{
  ℕ, zero, suc, ◌≤◌, ◌<◌, ◌≡◌, ◌↔◌, inl, inr, refl, sym, ap, subst, ◌∙◌, arith, Bool, true, false,
  Option, none, some, List, [], ◌∷◌, ◌++◌, length, length-append, if◌then◌else◌, ltb, Bool-cases,
  ltb→lt,
}
use yellowstone.Collections.{Queue}

module _ {A : Type 0} where
  unfoldable pub take : ℕ → List A → List A
  take zero xs = []
  take (suc n) [] = []
  take (suc n) (x ∷ xs) = x ∷ take n xs

  pub length-take : (n : ℕ) (xs : List A) → length (take n xs) ≤ n
  unfolding take
  length-take zero xs = omega arith
  length-take (suc n) [] = omega arith
  length-take (suc n) (x ∷ xs) = omega (arith, length-take n xs)

  pub take_short : (n : ℕ) (xs : List A) → length xs ≤ n → take n xs ≡ xs
  unfolding take
  take_short zero [] h = refl
  take_short zero (x ∷ xs) h = absurd (omega arith)
  take_short (suc n) [] h = refl
  take_short (suc n) (x ∷ xs) h = ap (λ r. x ∷ r) (take_short n xs (omega arith))

  unfoldable pub is_nil : List A → Bool
  is_nil [] = true
  is_nil (x ∷ xs) = false

  unfoldable pub pop_front : List A → List A × Option A
  pop_front [] = ([], none)
  pop_front (x ∷ xs) = (xs, some x)

  -- A queue that holds the first `n` elements of a list.
  unfoldable pub push_back : (n : ℕ) → A → List A → List A × Bool
  unfolding take
  push_back n a xs =
      if ltb (length (take n xs)) n then (take n xs ++ a ∷ [], true) else (take n xs, false)

  take-take : (n : ℕ) (xs : List A) → take n (take n xs) ≡ take n xs
  take-take n xs = take_short n (take n xs) (length-take n xs)

  pub push_back_done :
      (n : ℕ) (a : A) (xs : List A)
      → (push_back n a xs).1 ≡ true
      → take n (push_back n a xs).0 ≡ take n xs ++ a ∷ []
  unfolding push_back
  push_back_done n a xs done = elim (Bool-cases (ltb (length (take n xs)) n)) [
    | inl room ↦
        let low = ltb→lt (length (take n xs)) n room in
        let size = length-append (take n xs) (a ∷ []) in
        let e : (push_back n a xs).0 ≡ take n xs ++ a ∷ [] = ground arith in
        ap (take n) e ∙ take_short n (take n xs ++ a ∷ []) (omega (arith, size))
    | inr full ↦ absurd (ground arith)
  ]

  pub push_back_refused :
      (n : ℕ) (a : A) (xs : List A)
      → (push_back n a xs).1 ≡ false
      → take n (push_back n a xs).0 ≡ take n xs
  unfolding push_back
  push_back_refused n a xs full = elim (Bool-cases (ltb (length (take n xs)) n)) [
    | inl room ↦ absurd (ground arith)
    | inr none_left ↦
        let e : (push_back n a xs).0 ≡ take n xs = ground arith in ap (take n) e ∙ take-take n xs
  ]

  pub push_back_room :
      (n : ℕ) (a : A) (xs : List A) → suc (length (take n xs)) < n → (push_back n a xs).1 ≡ true
  unfolding push_back
  push_back_room n a xs room = ground arith

  pub is_nil_iff : (n : ℕ) (xs : List A) → (is_nil (take n xs) ≡ true) ↔ (take n xs ≡ [])
  unfolding is_nil
  is_nil_iff n xs = by_list (take n xs)
    where
      by_list : (c : List A) → (is_nil c ≡ true) ↔ (c ≡ [])
      by_list [] = ground arith
      by_list (x ∷ c) = (λ h. cc, λ h. cc)

  pub pop_front_nil :
      (n : ℕ) (xs : List A)
      → take n xs ≡ []
      → ((pop_front (take n xs)).1 ≡ none) × (take n (pop_front (take n xs)).0 ≡ [])
  unfolding pop_front
  pop_front_nil n xs e =
      subst (λ c. ((pop_front c).1 ≡ none) × (take n (pop_front c).0 ≡ [])) (sym e)
        (refl, take_short n [] (omega arith))

  pub pop_front_cons :
      (n : ℕ) (xs : List A) (a : A) (rest : List A)
      → take n xs ≡ a ∷ rest
      → ((pop_front (take n xs)).1 ≡ some a) × (take n (pop_front (take n xs)).0 ≡ rest)
  unfolding pop_front
  pop_front_cons n xs a rest e =
      let size : length (take n xs) ≡ suc (length rest) = ap length e in
      subst (λ c. ((pop_front c).1 ≡ some a) × (take n (pop_front c).0 ≡ rest)) (sym e)
        (refl, take_short n rest (omega (arith, length-take n xs)))

instance unfoldable pub list_queue : {A : Type 0} {n : ℕ} → Queue A (List A) n
unfolding take is_nil push_back pop_front
list_queue {A} {n} = record {
  empty = [];
  is_empty = λ xs. is_nil (take n xs);
  push = push_back n;
  pop = λ xs. pop_front (take n xs);
  clear = λ xs. [];
  contents = take n;
  contents-empty = take_short n [] (omega arith);
  contents-clear = λ xs. take_short n [] (omega arith);
  is_empty_iff = is_nil_iff n;
  push_room =
      λ a xs room. (push_back_room n a xs room, push_back_done n a xs (push_back_room n a xs room));
  push_done = push_back_done n;
  push_refused = push_back_refused n;
  bounded = length-take n;
  pop_nil = pop_front_nil n;
  pop_cons = pop_front_cons n;
}
