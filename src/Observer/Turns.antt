-- ===== src/Observer/Turns.antt =====
-- `turn`: the loop of `m_run`, the wait and the barrier.
use yellowstone.Prelude.{
  ℕ, suc, ◌+◌, ◌≡◌, inl, inr, refl, ap, sym, subst, ◌∙◌, true, none, some, length, List, [], ◌∷◌,
  arith, Bool-cases, Option-cases, ◌==◌, eq_nil_of_length,
}
use yellowstone.Prelude.Int.{ℤ}
use yellowstone.Collections.{Queue, UnorderedMap, GraphPartitionQueue}
use yellowstone.Exchange.{Lease, k_ready_size, k_registry_size}
use yellowstone.Exchange.Barrier.{released}
use yellowstone.Observer.{
  StateType, waiting, draining, teardown, terminated, Notice, k_max_state_buffer_size,
  k_mailbox_size, World, Phase, looping, checking, counted, sleeping, woken, popping, received,
  deciding, blocked, ended, change_state,
}
use yellowstone.Observer.Run.{resume, turn, execute, run_loop, wait_counted, barrier_wait, at_phase}
use yellowstone.Observer.Invariant.{
  IsObserver, Kept, resume-Kept, none_queued, Due, taken, conserved_lem,
}
use yellowstone.Observer.Steps.{
  acquire_notice-Kept, acquire_state-Kept, released_state-Kept, release_state-Kept,
  drain_state-Kept,
}

module _ {S M Q R P E : Type 0} ⦃states : Queue StateType S k_max_state_buffer_size⦄
    ⦃mail : Queue Notice M k_mailbox_size⦄ ⦃queue : Queue ℤ Q k_ready_size⦄
    ⦃registry : UnorderedMap ℤ Lease R k_registry_size⦄ ⦃partitions : GraphPartitionQueue E P⦄ where
  -- The world without the next queued state.
  abbrev pub took : World S M Q R P E → World S M Q R P E
  took w = record w { observer = record w.observer { states = (states.pop w.observer.states).0 } }

  -- The loop of `m_run` executes the first queued state.
  pub run_loop-queued :
      (st : StateType) (rest : List StateType) (w : World S M Q R P E)
      → states.contents w.observer.states ≡ st ∷ rest
      → (run_loop true w ≡ execute true st (took w))
        × (states.contents (took w).observer.states ≡ rest)
  unfolding run_loop
  run_loop-queued st rest w e =
      let p = states.pop_cons w.observer.states st rest e in
      let busy = (states.is_empty_iff w.observer.states).0 in
      (
        elim (Bool-cases (states.is_empty w.observer.states)) [
          | inl empty ↦ absurd (cc (busy empty))
          | inr full ↦ ground (arith, p.0)
        ],
        p.1,
      )

  pub turn-queued :
      (st : StateType) (rest : List StateType) (w : World S M Q R P E)
      → w.phase ≡ looping
      → states.contents w.observer.states ≡ st ∷ rest
      → (turn true w ≡ execute true st (took w)) × (states.contents (took w).observer.states ≡ rest)
  unfolding turn
  turn-queued st rest w at e =
      let r = run_loop-queued st rest w e in (ap (λ ph. at_phase true ph w) at ∙ r.0, r.1)

module _ {S M Q R P E : Type 0} ⦃states : Queue StateType S k_max_state_buffer_size⦄
    ⦃mail : Queue Notice M k_mailbox_size⦄ ⦃queue : Queue ℤ Q k_ready_size⦄
    ⦃registry : UnorderedMap ℤ Lease R k_registry_size⦄ ⦃partitions : GraphPartitionQueue E P⦄
    (pushed counting stopping : ℕ) where
  execute-Kept :
      (st : StateType) (w : World S M Q R P E)
      → states.contents w.observer.states ≡ []
      → w.observer.mailbox_count + pushed ≡ length (mail.contents w.observer.mailbox)
      → Due w.observer.mailbox_count (st ∷ [])
      → w.phase ≡ looping
      → Kept pushed counting stopping (execute true st w)
  unfolding execute
  execute-Kept waiting w none_left conserved due at = record {
    conserved = omega arith;
    single = omega (arith, ap length none_left);
    due = subst (Due w.observer.mailbox_count) (sym none_left) tt;
    alert = tt;
  }
  execute-Kept StateType.acquire w none_left conserved due at =
      acquire_notice-Kept pushed counting stopping w none_left conserved due
  execute-Kept draining w none_left conserved due at = record {
    conserved = omega arith;
    single = omega (arith, ap length none_left);
    due = subst (Due w.observer.mailbox_count) (sym none_left) tt;
    alert = tt;
  }
  execute-Kept StateType.release w none_left conserved due at =
      release_state-Kept pushed counting stopping w none_left conserved
  execute-Kept teardown w none_left conserved due at =
      resume-Kept pushed counting stopping (change_state true waiting w.observer) waiting w.observer
        w refl none_left conserved tt
  execute-Kept terminated w none_left conserved due at =
      let cleared = states.contents-clear w.observer.states in
      subst
        (IsObserver pushed counting stopping
          (record w.observer { states = states.clear w.observer.states }))
        (sym at)
        (record {
          conserved = omega arith;
          single = omega (arith, ap length cleared);
          due = subst (Due w.observer.mailbox_count) (sym cleared) tt;
          alert = tt;
        })

  run_loop-Kept :
      (w : World S M Q R P E)
      → w.phase ≡ looping
      → IsObserver pushed counting stopping w.observer looping
      → Kept pushed counting stopping (run_loop true w)
  unfolding run_loop
  run_loop-Kept w at v = by_states (states.contents w.observer.states) refl v.due
    where
      by_states :
          (c : List StateType)
          → states.contents w.observer.states ≡ c
          → Due w.observer.mailbox_count c
          → Kept pushed counting stopping (run_loop true w)
      by_states [] e due =
          let empty = (states.is_empty_iff w.observer.states).1 e in
          let same : run_loop true w ≡ some (record w { phase = ended }) = ground arith in
          subst (Kept pushed counting stopping) (sym same) (record {
            conserved = v.conserved;
            single = omega (arith, ap length e);
            due = v.due;
            alert = tt;
          })
      by_states (st ∷ rest) e due =
          let one : length (states.contents w.observer.states) ≡ suc (length rest) = ap length e in
          let last : rest ≡ [] = eq_nil_of_length rest (omega (arith, v.single)) in
          let (same, left) = run_loop-queued st rest w e in
          subst (Kept pushed counting stopping) (sym same) (
            execute-Kept st (took w) (left ∙ last)
              (conserved_lem pushed counting stopping w.observer looping refl v)
              (subst (λ r. Due w.observer.mailbox_count (st ∷ r)) last due) at)

  wait_counted-Kept :
      (count : ℕ) (w : World S M Q R P E)
      → IsObserver pushed counting stopping w.observer (counted count)
      → Kept pushed counting stopping (wait_counted true count w)
  unfolding wait_counted
  wait_counted-Kept count w v =
      let o = w.observer in
      let none_left = none_queued pushed counting stopping o (counted count) refl v in
      let told : Kept pushed counting stopping (resume (change_state true terminated o) w) =
        resume-Kept pushed counting stopping (change_state true terminated o) terminated o w refl
          none_left (conserved_lem pushed counting stopping o (counted count) refl v) tt in
      elim (Bool-cases (count == 0)) [
        | inr some_mail ↦
            let e : wait_counted true count w ≡ resume (change_state true StateType.acquire o) w =
              ground arith in
            subst (Kept pushed counting stopping) (sym e) (
              resume-Kept pushed counting stopping (change_state true StateType.acquire o)
                StateType.acquire o w refl none_left
                (conserved_lem pushed counting stopping o (counted count) refl v)
                (ground (arith, v.alert.0)))
        | inl no_mail ↦ elim (Bool-cases o.stop) [
          | inl stops ↦
              let e : wait_counted true count w ≡ resume (change_state true terminated o) w =
                ground arith in
              subst (Kept pushed counting stopping) (sym e) told
          | inr runs ↦
              let e : wait_counted true count w ≡ some (record w { phase = sleeping }) =
                ground arith in
              subst (Kept pushed counting stopping) (sym e) (record {
                conserved = v.conserved;
                single = v.single;
                due = v.due;
                alert = (ground (arith, v.alert.1), inr (inr runs));
              })
        ]
      ]

  barrier_wait-Kept :
      (observed : ℕ) (w : World S M Q R P E)
      → IsObserver pushed counting stopping w.observer (blocked observed)
      → w.phase ≡ blocked observed
      → Kept pushed counting stopping (barrier_wait true observed w)
  unfolding barrier_wait
  barrier_wait-Kept observed w v at = elim (Option-cases w.exchange) [
    | inl unset ↦
        let e : barrier_wait true observed w ≡ none = ground arith in
        subst (Kept pushed counting stopping) (sym e) tt
    | inr (x, set_to) ↦ elim (Bool-cases (released observed x.graph)) [
      | inl passed ↦
          let e : barrier_wait true observed w ≡ resume (change_state true waiting w.observer) w =
            ground arith in
          subst (Kept pushed counting stopping) (sym e) (
            resume-Kept pushed counting stopping (change_state true waiting w.observer) waiting
              w.observer w refl
              (none_queued pushed counting stopping w.observer (blocked observed) refl v)
              (conserved_lem pushed counting stopping w.observer (blocked observed) refl v) tt)
      | inr waits_on ↦
          let e : barrier_wait true observed w ≡ some w = ground arith in
          subst (Kept pushed counting stopping) (sym e)
            (subst (IsObserver pushed counting stopping w.observer) (sym at) v)
    ]
  ]

  at_phase-Kept :
      (phase : Phase) (w : World S M Q R P E)
      → w.phase ≡ phase
      → IsObserver pushed counting stopping w.observer phase
      → Kept pushed counting stopping (at_phase true phase w)
  unfolding at_phase
  at_phase-Kept looping w at v = run_loop-Kept w at v
  at_phase-Kept checking w at v = record {
    conserved = v.conserved;
    single = v.single;
    due = v.due;
    alert = (omega arith, inr (inr refl));
  }
  at_phase-Kept (counted count) w at v = wait_counted-Kept count w v
  at_phase-Kept sleeping w at v = elim (Bool-cases (w.observer.wake == 0)) [
    | inl sleeps ↦
        let e : at_phase true sleeping w ≡ some w = ground arith in
        subst (Kept pushed counting stopping) (sym e)
          (subst (IsObserver pushed counting stopping w.observer) (sym at) v)
    | inr wakes ↦
        let e : at_phase true sleeping w ≡ some (record w { phase = woken }) = ground arith in
        subst (Kept pushed counting stopping) (sym e)
          (record { conserved = v.conserved; single = v.single; due = v.due; alert = tt })
  ]
  at_phase-Kept woken w at v = record {
    conserved = v.conserved;
    single = v.single;
    due = v.due;
    alert = tt;
  }
  at_phase-Kept popping w at v =
      drain_state-Kept pushed counting stopping w
        (subst (IsObserver pushed counting stopping w.observer) (sym at) v)
        (none_queued pushed counting stopping w.observer popping refl v) (ap taken at)
  at_phase-Kept (received n) w at v = acquire_state-Kept pushed counting stopping n w v
  at_phase-Kept (deciding count) w at v = released_state-Kept pushed counting stopping count w v
  at_phase-Kept (blocked observed) w at v = barrier_wait-Kept observed w v at
  at_phase-Kept ended w at v = subst (IsObserver pushed counting stopping w.observer) (sym at) v

  pub turn-Kept :
      (w : World S M Q R P E)
      → IsObserver pushed counting stopping w.observer w.phase
      → Kept pushed counting stopping (turn true w)
  unfolding turn
  turn-Kept w v = at_phase-Kept w.phase w refl v
