-- ===== src/Worker/Flushing.antt =====
-- What `flush` stores, and what it stores again after an exception.
use yellowstone.Prelude.{
  ℕ, suc, ◌+◌, ◌≡◌, ◌⊎◌, inl, inr, refl, sym, ap, ap₂, subst, ◌∙◌, Bool, true, false, List, [], ◌∷◌,
  ◌++◌, if◌then◌else◌, arith, Bool-cases, length, append_assoc, append-nil,
}
use yellowstone.Worker.{Persistence, Worker, store_all, flush}

-- The values with the ids that they are stored under, from `id` on.
abbrev pub numbered {ℓ} : {V : Type ℓ} → ℕ → List V → List (ℕ × V)
numbered id [] = []
numbered id (v ∷ vs) = (id, v) ∷ numbered (suc id) vs

module _ {V D : Type 0} ⦃persistence : Persistence V D⦄ where
  -- The two ends of the loop: every value is stored; or `store` has thrown at one, whose id is used up,
  -- and those before it are stored.
  abbrev pub Stores : List V → ℕ → D → ℕ × D × Bool → Type 0
  Stores vs id d (next, after, done) =
      ((done ≡ true)
        × (next ≡ id + length vs)
        × (persistence.stored after ≡ persistence.stored d ++ numbered id vs))
      ⊎ ((before : List V) × (v : V) × (rest : List V) × (done ≡ false)
          × (vs ≡ before ++ v ∷ rest)
          × (next ≡ id + length before + 1)
          × (persistence.stored after ≡ persistence.stored d ++ numbered id before))

  store_all-Stores : (vs : List V) (id : ℕ) (d : D) → Stores vs id d (store_all vs id d)
  unfolding store_all
  store_all-Stores [] id d = inl (refl, omega arith, sym (append-nil (persistence.stored d)))
  store_all-Stores (v ∷ vs) id d = elim (Bool-cases (persistence.store id v d).1) [
    | inr thrown ↦
        let after : D = (persistence.store id v d).0 in
        let e : store_all (v ∷ vs) id d ≡ (suc id, after, false) = ground arith in
        subst (Stores (v ∷ vs) id d) (sym e) (
          inr (
            [],
            v,
            vs,
            refl,
            refl,
            omega arith,
            persistence.store_thrown id v d thrown ∙ sym (append-nil (persistence.stored d)),
          ))
    | inl done ↦
        let after : D = (persistence.store id v d).0 in
        let e : store_all (v ∷ vs) id d ≡ store_all vs (suc id) after = ground arith in
        subst (Stores (v ∷ vs) id d) (sym e) (
          stored_first v vs id d (store_all vs (suc id) after) (persistence.store_done id v d done)
            (store_all-Stores vs (suc id) after))
  ]
    where
      stored_first :
          (v : V) (vs : List V) (id : ℕ) (d : D) (r : ℕ × D × Bool)
          → persistence.stored (persistence.store id v d).0 ≡ persistence.stored d ++ (id, v) ∷ []
          → Stores vs (suc id) (persistence.store id v d).0 r
          → Stores (v ∷ vs) id d r
      stored_first v vs id d (next, last, done) held (inl (all, ids, kept)) = inl (
        all,
        omega arith,
        kept
            ∙ ap (λ s. s ++ numbered (suc id) vs) held
            ∙ append_assoc (persistence.stored d) ((id, v) ∷ []) (numbered (suc id) vs),
      )
      stored_first v vs id d (next, last, done) held
            (inr (before, x, rest, stopped, split, ids, kept)) =
          inr (
            v ∷ before,
            x,
            rest,
            stopped,
            ap (λ l. v ∷ l) split,
            omega arith,
            kept
                ∙ ap (λ s. s ++ numbered (suc id) before) held
                ∙ append_assoc (persistence.stored d) ((id, v) ∷ []) (numbered (suc id) before),
          )

module _ {E V W D : Type 0} ⦃persistence : Persistence V D⦄ (s : Worker E V W D) where
  -- The two results of `flush`: everything pending is stored and nothing is pending; or `store` has
  -- thrown at `v`, the values before it are stored, and everything stays pending.
  abbrev pub Flushes : Worker E V W D → Type 0
  Flushes after =
      ((after.pending_events ≡ [])
        × (after.next_event_id ≡ s.next_event_id + length s.pending_events)
        × (persistence.stored after.disk
            ≡ persistence.stored s.disk ++ numbered s.next_event_id s.pending_events))
      ⊎ ((before : List V) × (v : V) × (rest : List V) × (s.pending_events ≡ before ++ v ∷ rest)
          × (after.pending_events ≡ s.pending_events)
          × (after.next_event_id ≡ s.next_event_id + length before + 1)
          × (persistence.stored after.disk
              ≡ persistence.stored s.disk ++ numbered s.next_event_id before))

  flushed : ℕ × D × Bool → Worker E V W D
  flushed (id, d, done) = record s {
    next_event_id = id;
    disk = d;
    pending_events = if done then [] else s.pending_events;
  }

  flush-flushed : flush true s ≡ flushed (store_all s.pending_events s.next_event_id s.disk)
  unfolding flush flushed
  flush-flushed = refl

  flushed-Flushes :
      (r : ℕ × D × Bool) → Stores s.pending_events s.next_event_id s.disk r → Flushes (flushed r)
  unfolding flushed
  flushed-Flushes (id, d, done) (inl (all, ids, kept)) = inl (ground arith, ids, kept)
  flushed-Flushes (id, d, done) (inr (before, v, rest, stopped, split, ids, kept)) =
      inr (before, v, rest, split, ground arith, ids, kept)

  -- With persistence, `flush` either stores every pending event under the next ids, in order, and
  -- leaves none pending, or, when `store` throws, has stored those before and keeps all of them
  -- pending; the id of the one that failed is used up.
  pub flush-Flushes : Flushes (flush true s)
  flush-Flushes = subst Flushes (sym flush-flushed) (
      flushed-Flushes (store_all s.pending_events s.next_event_id s.disk)
        (store_all-Stores s.pending_events s.next_event_id s.disk))

module _ {E V W D : Type 0} ⦃persistence : Persistence V D⦄ (s : Worker E V W D) where
  -- Some events are stored twice, the second time under new ids.
  abbrev pub Repeats : Worker E V W D → Type 0
  Repeats twice =
      (before : List V) × (x : V) × (rest : List V) × (s.pending_events ≡ before ++ x ∷ rest)
      × (persistence.stored twice.disk
          ≡ (persistence.stored s.disk ++ numbered s.next_event_id before)
            ++ numbered (s.next_event_id + length before + 1) (before ++ x ∷ rest))

  repeated :
      (once twice : Worker E V W D) (v : V) (vs : List V)
      → once.pending_events ≡ v ∷ vs
      → twice.pending_events ≡ []
      → Flushes s once
      → Flushes once twice
      → Repeats twice
  repeated once twice v vs left none_left (inl (empty, _, _)) q = absurd cc
  repeated once twice v vs left none_left (inr p) (inr (_, _, _, _, same, _, _)) = absurd cc
  repeated once twice v vs left none_left (inr (before, x, rest, split, same, id, kept))
        (inl (_, _, all)) =
      (before, x, rest, split, all ∙ ap₂ (λ d l. d ++ l) kept (ap₂ numbered id (same ∙ split)))

  -- When a first `flush` leaves events pending and a second one does not, the events that the first has
  -- stored, those before the one that failed, are stored again by the second, under new ids.
  pub flush-Repeats :
      (v : V) (vs : List V)
      → (flush true s).pending_events ≡ v ∷ vs
      → (flush true (flush true s)).pending_events ≡ []
      → Repeats (flush true (flush true s))
  flush-Repeats v vs left none_left =
      repeated (flush true s) (flush true (flush true s)) v vs left none_left (flush-Flushes s)
        (flush-Flushes (flush true s))
