-- ===== src/Collections.antt =====
-- What the engine under source/ uses of the containers `collections::Queue` and
-- `collections::UnorderedMap`, whose code the repository does not hold: their operations, what they
-- hold, and what the callers rely on.
use mathlib.Core.List.{Mem}
use yellowstone.Prelude.{
  ℕ, ◌⊎◌, inl, inr, refl, suc, ◌<◌, ◌≤◌, ◌≡◌, ◌↔◌, Bool, true, false, Option, none, some, List, [],
  ◌∷◌, ◌++◌, Perm, length,
}

-- `push` returns whether it succeeded, which it does while a place is left beside one that a ring
-- may keep free. `pop` returns `none` for `kEmpty`.
pub record Queue {ℓ} (A Q : Type ℓ) (capacity : ℕ) : Type ℓ where
  pub empty : Q
  pub is_empty : Q → Bool
  pub push : A → Q → Q × Bool
  pub pop : Q → Q × Option A
  pub clear : Q → Q
  pub contents : Q → List A
  pub contents-empty : contents empty ≡ []
  pub contents-clear : (q : Q) → contents (clear q) ≡ []
  pub is_empty_iff : (q : Q) → (is_empty q ≡ true) ↔ (contents q ≡ [])
  pub push_room :
      (a : A) (q : Q)
      → suc (length (contents q)) < capacity
      → ((push a q).1 ≡ true) × (contents (push a q).0 ≡ contents q ++ a ∷ [])
  pub push_done :
      (a : A) (q : Q) → (push a q).1 ≡ true → contents (push a q).0 ≡ contents q ++ a ∷ []
  pub push_refused : (a : A) (q : Q) → (push a q).1 ≡ false → contents (push a q).0 ≡ contents q
  pub bounded : (q : Q) → length (contents q) ≤ capacity
  pub pop_nil : (q : Q) → contents q ≡ [] → ((pop q).1 ≡ none) × (contents (pop q).0 ≡ [])
  pub pop_cons :
      (q : Q) (a : A) (rest : List A)
      → contents q ≡ a ∷ rest
      → ((pop q).1 ≡ some a) × (contents (pop q).0 ≡ rest)

-- `emplace` and `erase` return whether they changed the map.
pub record UnorderedMap {ℓ} (K V R : Type ℓ) (capacity : ℕ) : Type ℓ where
  pub empty : R
  pub find : K → R → Option V
  pub emplace : K → V → R → R × Bool
  pub erase : K → R → R × Bool
  pub entries : R → List (K × V)
  pub entries-empty : entries empty ≡ []
  pub find_iff : (k : K) (v : V) (r : R) → (find k r ≡ some v) ↔ Mem (k, v) (entries r)
  pub emplace_room :
      (k : K) (v : V) (r : R)
      → find k r ≡ none
      → length (entries r) < capacity
      → ((emplace k v r).1 ≡ true) × Perm (entries (emplace k v r).0) ((k, v) ∷ entries r)
  pub erase_found :
      (k : K) (v : V) (r : R)
      → find k r ≡ some v
      → ((erase k r).1 ≡ true) × Perm (entries r) ((k, v) ∷ entries (erase k r).0)

-- What `pop_graph_if_superstep` returns: an event of the current superstep, events of a later one
-- only, or neither.
pub data GraphPop {ℓ} (E : Type ℓ) : Type ℓ where
  popped : Option E → GraphPop E
  future : GraphPop E
  missed : GraphPop E

-- A partition of events, whose pointers may be null. `plain` are those that `pop` takes.
pub record GraphPartitionQueue {ℓ} (E P : Type ℓ) : Type ℓ where
  pub pop : P → P × Option (Option E)
  pub has_graph_pending : P → Bool
  pub pop_graph_if_superstep : ℕ → P → P × GraphPop E
  pub plain : P → List (Option E)
  pub plain_nil :
      (p : P)
      → has_graph_pending p ≡ false
      → plain p ≡ []
      → ((pop p).1 ≡ none) × (plain (pop p).0 ≡ []) × (has_graph_pending (pop p).0 ≡ false)
  pub plain_cons :
      (p : P) (e : Option E) (rest : List (Option E))
      → has_graph_pending p ≡ false
      → plain p ≡ e ∷ rest
      → ((pop p).1 ≡ some e) × (plain (pop p).0 ≡ rest) × (has_graph_pending (pop p).0 ≡ false)

pub GraphPop-cases {ℓ} :
    {E : Type ℓ} (r : GraphPop E)
    → ((e : Option E) × (r ≡ popped e)) ⊎ ((r ≡ future) ⊎ (r ≡ missed))
GraphPop-cases (popped e) = inl (e, refl)
GraphPop-cases future = inr (inl refl)
GraphPop-cases missed = inr (inr refl)
