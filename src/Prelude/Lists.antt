-- ===== src/Prelude/Lists.antt =====
-- Lists measured and indexed by native numbers, and predicates on every element of a list.
use Prim.Native.Nat.{ℕ, zero, suc, ◌+◌, ◌≤◌, ◌<◌}
use mathlib.Core.Path.{◌≡◌, refl, ap, sym, ◌∙◌, subst}
use mathlib.Core.Logic.{◌≢◌}
use mathlib.Core.Logic.Or
use mathlib.Core.List.{
  List, [], ◌∷◌, ◌++◌, Perm, Mem, mem-cons, mem-cons_self, mem-cons_of_mem, not-mem-nil,
  mem-map_of_mem, Nodup, Nodup-cons,
}
use mathlib.Core.List
use mathlib.Core.List.Perm
use native.Mathlib.Bridge.{from_ℕ}
use mathlib.Core.Option.{Option, none, some}
use native.Mathlib.Omega.{arith}

module _ {ℓ} {A : Type ℓ} where
  abbrev pub length : List A → ℕ
  length [] = 0
  length (x ∷ xs) = suc (length xs)

  abbrev pub get_elem? : List A → ℕ → Option A
  get_elem? [] i = none
  get_elem? (x ∷ xs) zero = some x
  get_elem? (x ∷ xs) (suc i) = get_elem? xs i

  -- A write out of bounds changes nothing.
  abbrev pub set : List A → ℕ → A → List A
  set [] i v = []
  set (x ∷ xs) zero v = v ∷ xs
  set (x ∷ xs) (suc i) v = x ∷ set xs i v

  abbrev pub replicate : ℕ → A → List A
  replicate zero a = []
  replicate (suc n) a = a ∷ replicate n a

  abbrev pub All {κ} : (A → Type κ) → List A → Type κ
  All P [] = Unit
  All P (x ∷ xs) = P x × All P xs

  pub length-append : (xs ys : List A) → length (xs ++ ys) ≡ length xs + length ys
  length-append [] ys = omega arith
  length-append (x ∷ xs) ys = omega (arith, length-append xs ys)

module _ {ℓ} {A : Type ℓ} where
  pub eq_nil_of_length : (xs : List A) → length xs ≤ 0 → xs ≡ []
  eq_nil_of_length [] h = refl
  eq_nil_of_length (x ∷ xs) h = absurd (omega arith)

  pub length-set : (xs : List A) (i : ℕ) (v : A) → length (set xs i v) ≡ length xs
  length-set [] i v = refl
  length-set (x ∷ xs) zero v = refl
  length-set (x ∷ xs) (suc i) v = ap suc (length-set xs i v)

  pub get_elem?-length : (xs : List A) (i : ℕ) (v : A) → get_elem? xs i ≡ some v → i < length xs
  get_elem?-length [] i v h = absurd cc
  get_elem?-length (x ∷ xs) zero v h = omega arith
  get_elem?-length (x ∷ xs) (suc i) v h = omega (arith, get_elem?-length xs i v h)

  pub get_elem?-set_self :
      (xs : List A) (i : ℕ) (v : A) → i < length xs → get_elem? (set xs i v) i ≡ some v
  get_elem?-set_self [] i v h = elim h [ ]
  get_elem?-set_self (x ∷ xs) zero v h = refl
  get_elem?-set_self (x ∷ xs) (suc i) v h = get_elem?-set_self xs i v (omega arith)

  pub get_elem?-set_ne :
      (xs : List A) (i j : ℕ) (v : A) → i ≢ j → get_elem? (set xs i v) j ≡ get_elem? xs j
  get_elem?-set_ne [] i j v h = refl
  get_elem?-set_ne (x ∷ xs) zero zero v h = absurd (h refl)
  get_elem?-set_ne (x ∷ xs) zero (suc j) v h = refl
  get_elem?-set_ne (x ∷ xs) (suc i) zero v h = refl
  get_elem?-set_ne (x ∷ xs) (suc i) (suc j) v h = get_elem?-set_ne xs i j v (λ e. h (ap suc e))

module _ {ℓ κ} {A : Type ℓ} (P : A → Type κ) where
  pub All-append : (xs ys : List A) → All P xs → All P ys → All P (xs ++ ys)
  All-append [] ys hx hy = hy
  All-append (x ∷ xs) ys hx hy = (hx.0, All-append xs ys hx.1 hy)

-- The library counts in its own numbers: `from_ℕ` carries the count over.
length-from_ℕ {ℓ} : {A : Type ℓ} (xs : List A) → length xs ≡ from_ℕ (List.length xs)
length-from_ℕ [] = refl
length-from_ℕ (x ∷ xs) = ap suc (length-from_ℕ xs)

pub length-perm {ℓ} : {A : Type ℓ} (xs ys : List A) → Perm xs ys → length xs ≡ length ys
length-perm xs ys p = length-from_ℕ xs ∙ ap from_ℕ (Perm.length-eq p) ∙ sym (length-from_ℕ ys)

module _ {ℓ κ} {A : Type ℓ} {P : A → Type κ} (prop : (a : A) → IsProp (P a)) where
  pub All→Mem : (xs : List A) → All P xs → {a : A} → Mem a xs → P a
  All→Mem [] h {a} m = absurd (not-mem-nil m)
  All→Mem (x ∷ xs) h {a} m =
      Or.elim (prop a) (mem-cons.0 m) (λ e. subst P (sym e) h.0) (λ t. All→Mem xs h.1 t)

  Mem→All : (xs : List A) → ((a : A) → Mem a xs → P a) → All P xs
  Mem→All [] h = tt
  Mem→All (x ∷ xs) h = (h x mem-cons_self, Mem→All xs λ a m. h a (mem-cons_of_mem x m))

  pub All-perm : (xs ys : List A) → Perm xs ys → All P xs → All P ys
  All-perm xs ys p h = Mem→All ys λ a m. All→Mem xs h ((Perm.mem_iff p).1 m)

pub length-replicate {ℓ} : {A : Type ℓ} (n : ℕ) (a : A) → length (replicate n a) ≡ n
length-replicate zero a = refl
length-replicate (suc n) a = ap suc (length-replicate n a)

pub length-map {ℓ κ} :
    {A : Type ℓ} {B : Type κ} (f : A → B) (xs : List A) → length (List.map f xs) ≡ length xs
length-map f [] = refl
length-map f (x ∷ xs) = ap suc (length-map f xs)

module _ {ℓ κ} {A : Type ℓ} {B : Type κ} (is_set : IsSet A) (f : A → B) where
  -- Where no value of `f` occurs twice, elements with the same value are the same.
  pub Nodup-map_inj :
      (xs : List A) (a b : A) → Nodup (List.map f xs) → Mem a xs → Mem b xs → f a ≡ f b → a ≡ b
  Nodup-map_inj [] a b n ma mb e = absurd (not-mem-nil ma)
  Nodup-map_inj (x ∷ xs) a b n ma mb e =
      let apart = Nodup-cons.0 n in
      Or.elim (is_set a b) (mem-cons.0 ma)
        (λ ax.
          Or.elim (is_set a b) (mem-cons.0 mb) (λ bx. ax ∙ sym bx)
            λ bt. absurd (
              apart.0 (subst (λ y. Mem y (List.map f xs)) (sym e ∙ ap f ax) (mem-map_of_mem f bt))))
        λ at.
          Or.elim (is_set a b) (mem-cons.0 mb)
            (λ bx.
              absurd
                (apart.0 (subst (λ y. Mem y (List.map f xs)) (e ∙ ap f bx) (mem-map_of_mem f at))))
            λ bt. Nodup-map_inj xs a b apart.1 at bt e
