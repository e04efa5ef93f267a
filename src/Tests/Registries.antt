-- ===== src/Tests/Registries.antt =====
-- A registry and a partition on lists, which show that what is assumed of the engine's can hold.
use mathlib.Core.Logic.Or
use mathlib.Core.List.{Mem, not-mem-nil, mem-cons, mem-cons_self, mem-cons_of_mem}
use mathlib.Core.List.Perm
use native.Mathlib.Decide.{ℕ_discrete}
use yellowstone.Prelude.{
  ℕ, ◌≡◌, ◌↔◌, ◌⊎◌, inl, inr, refl, sym, ap, ap₂, subst, arith, Bool, true, false, Option, none,
  some, List, [], ◌∷◌, Perm, if◌then◌else◌, Bool-cases, Option-cases, if_both,
}
use yellowstone.Prelude.Int.{ℤ, int_eq, int_eq_sound, int_eq_refl, ℤ-set}
use yellowstone.Collections.{UnorderedMap, GraphPartitionQueue, GraphPop, missed}
use yellowstone.Exchange.{Lease}
use yellowstone.Tests.Containers.{pop_front}

-- A registry: a list of entries whose keys occur once.
unfoldable pub find_entry : ℤ → List (ℤ × Lease) → Option Lease
unfolding int_eq
find_entry k [] = none
find_entry k ((j, v) ∷ r) = if int_eq j k then some v else find_entry k r

unfoldable pub remove_entry : ℤ → List (ℤ × Lease) → List (ℤ × Lease)
unfolding int_eq
remove_entry k [] = []
remove_entry k ((j, v) ∷ r) = if int_eq j k then r else (j, v) ∷ remove_entry k r

abbrev pub IsUnique : List (ℤ × Lease) → Type 0
IsUnique [] = Unit
IsUnique ((k, v) ∷ r) = (find_entry k r ≡ none) × IsUnique r

find-remove :
    (j k : ℤ) (r : List (ℤ × Lease))
    → find_entry j r ≡ none
    → find_entry j (remove_entry k r) ≡ none
unfolding find_entry remove_entry
find-remove j k [] h = refl
find-remove j k ((i, v) ∷ r) h = ground (arith, find-remove j k r)

pub remove-IsUnique : (k : ℤ) (r : List (ℤ × Lease)) → IsUnique r → IsUnique (remove_entry k r)
unfolding remove_entry
remove-IsUnique k [] u = tt
remove-IsUnique k ((j, v) ∷ r) (fresh, u) =
    if_both IsUnique (int_eq j k) r ((j, v) ∷ remove_entry k r) u
      (find-remove j k r fresh, remove-IsUnique k r u)

option_set : IsSet (Option Lease)
option_set = hlevel (ℤ-set, ℕ_discrete)

find→Mem : (k : ℤ) (v : Lease) (r : List (ℤ × Lease)) → find_entry k r ≡ some v → Mem (k, v) r
unfolding find_entry
find→Mem k v [] h = cc
find→Mem k v ((j, w) ∷ r) h = elim (Bool-cases (int_eq j k)) [
  | inl hit ↦
      let key : k ≡ j = sym (int_eq_sound j k hit) in
      let value : v ≡ w = ground arith in
      subst (λ e. Mem e ((j, w) ∷ r)) (ap₂ (λ (a : ℤ) (b : Lease). (a, b)) (sym key) (sym value))
        mem-cons_self
  | inr miss ↦ mem-cons_of_mem (j, w) (find→Mem k v r (ground arith))
]

Mem→find :
    (k : ℤ) (v : Lease) (r : List (ℤ × Lease)) → IsUnique r → Mem (k, v) r → find_entry k r ≡ some v
unfolding find_entry
Mem→find k v [] u m = absurd (not-mem-nil m)
Mem→find k v ((j, w) ∷ r) (fresh, u) m =
    Or.elim (option_set (find_entry k ((j, w) ∷ r)) (some v)) (mem-cons.0 m)
      (λ e.
        let key : k ≡ j = ap (λ (p : ℤ × Lease). p.0) e in
        let value : v ≡ w = ap (λ (p : ℤ × Lease). p.1) e in ground (arith, int_eq_refl j))
      λ t.
        let later = Mem→find k v r u t in
        elim (Bool-cases (int_eq j k)) [
          | inl hit ↦
              let key = int_eq_sound j k hit in
              absurd (ground (arith, ap (λ i. find_entry i r) key))
          | inr miss ↦ ground (arith, later)
        ]

pub find-Mem_iff :
    (k : ℤ) (v : Lease) (r : (l : List (ℤ × Lease)) × IsUnique l)
    → (find_entry k r.0 ≡ some v) ↔ Mem (k, v) r.0
find-Mem_iff k v (l, u) = (find→Mem k v l, Mem→find k v l u)

unfoldable pub emplace_entry :
    (k : ℤ)
    → Lease
    → (r : (l : List (ℤ × Lease)) × IsUnique l)
    → (find_entry k r.0 ≡ none) ⊎ ((w : Lease) × (find_entry k r.0 ≡ some w))
    → ((l : List (ℤ × Lease)) × IsUnique l) × Bool
emplace_entry k v (l, u) (inl fresh) = (((k, v) ∷ l, (fresh, u)), true)
emplace_entry k v r (inr held) = (r, false)

pub emplace_entry_lem :
    (k : ℤ) (v : Lease) (r : (l : List (ℤ × Lease)) × IsUnique l)
    (o : (find_entry k r.0 ≡ none) ⊎ ((w : Lease) × (find_entry k r.0 ≡ some w)))
    → find_entry k r.0 ≡ none
    → ((emplace_entry k v r o).1 ≡ true) × Perm (emplace_entry k v r o).0.0 ((k, v) ∷ r.0)
unfolding emplace_entry
emplace_entry_lem k v (l, u) (inl fresh) h = (refl, Perm.refl ((k, v) ∷ l))
emplace_entry_lem k v (l, u) (inr (w, held)) h = absurd cc

unfoldable pub is_held : Option Lease → Bool
is_held none = false
is_held (some l) = true

remove-perm :
    (k : ℤ) (v : Lease) (r : List (ℤ × Lease))
    → find_entry k r ≡ some v
    → Perm r ((k, v) ∷ remove_entry k r)
unfolding find_entry remove_entry
remove-perm k v [] h = cc
remove-perm k v ((j, w) ∷ r) h = elim (Bool-cases (int_eq j k)) [
  | inl hit ↦
      let key = int_eq_sound j k hit in
      let value : w ≡ v = ground arith in
      let rest : remove_entry k ((j, w) ∷ r) ≡ r = ground arith in
      subst (λ t. Perm ((j, w) ∷ r) ((k, v) ∷ t)) (sym rest)
        (subst (λ (e : ℤ × Lease). Perm ((j, w) ∷ r) (e ∷ r))
          (ap₂ (λ (a : ℤ) (b : Lease). (a, b)) key value) (Perm.refl ((j, w) ∷ r)))
  | inr miss ↦
      let rest : remove_entry k ((j, w) ∷ r) ≡ (j, w) ∷ remove_entry k r = ground arith in
      subst (λ t. Perm ((j, w) ∷ r) ((k, v) ∷ t)) (sym rest)
        (Perm.trans (Perm.cons (j, w) (remove-perm k v r (ground arith)))
          (Perm.swap (k, v) (j, w) (remove_entry k r)))
]

pub erase_lem :
    (k : ℤ) (v : Lease) (r : List (ℤ × Lease))
    → find_entry k r ≡ some v
    → (is_held (find_entry k r) ≡ true) × Perm r ((k, v) ∷ remove_entry k r)
unfolding is_held
erase_lem k v r h = (ground arith, remove-perm k v r h)

abbrev pub Registry : Type 0
Registry = (l : List (ℤ × Lease)) × IsUnique l

instance unfoldable pub list_map : {n : ℕ} → UnorderedMap ℤ Lease Registry n
unfolding find_entry emplace_entry remove_entry is_held
list_map {n} = record {
  empty = ([], tt);
  find = λ k r. find_entry k r.0;
  emplace = λ k v r. emplace_entry k v r (Option-cases (find_entry k r.0));
  erase = λ k r. ((remove_entry k r.0, remove-IsUnique k r.0 r.1), is_held (find_entry k r.0));
  entries = λ r. r.0;
  entries-empty = refl;
  find_iff = find-Mem_iff;
  emplace_room =
      λ k v r fresh room. emplace_entry_lem k v r (Option-cases (find_entry k r.0)) fresh;
  erase_found = λ k v r held. erase_lem k v r.0 held;
}

-- A partition of plain events only.
pub no_graph : {E : Type 0} → ℕ → List (Option E) → List (Option E) × GraphPop E
no_graph superstep p = (p, missed)

pub plain_cons_lem :
    {E : Type 0} (p : List (Option E)) (e : Option E) (rest : List (Option E))
    → p ≡ e ∷ rest
    → ((pop_front p).1 ≡ some e) × ((pop_front p).0 ≡ rest)
unfolding pop_front
plain_cons_lem {E} p e rest h =
    subst (λ (c : List (Option E)). ((pop_front c).1 ≡ some e) × ((pop_front c).0 ≡ rest)) (sym h)
      (refl, refl)

pub plain_nil_lem :
    {E : Type 0} (p : List (Option E)) → p ≡ [] → ((pop_front p).1 ≡ none) × ((pop_front p).0 ≡ [])
unfolding pop_front
plain_nil_lem {E} p h =
    subst (λ (c : List (Option E)). ((pop_front c).1 ≡ none) × ((pop_front c).0 ≡ [])) (sym h)
      (refl, refl)

instance unfoldable pub plain_partition : {E : Type 0} → GraphPartitionQueue E (List (Option E))
unfolding pop_front no_graph
plain_partition = record {
  pop = pop_front;
  has_graph_pending = λ p. false;
  pop_graph_if_superstep = no_graph;
  plain = λ p. p;
  plain_nil = λ p none_pending h. ((plain_nil_lem p h).0, (plain_nil_lem p h).1, refl);
  plain_cons = λ p e rest none_pending h.
      ((plain_cons_lem p e rest h).0, (plain_cons_lem p e rest h).1, refl);
}
