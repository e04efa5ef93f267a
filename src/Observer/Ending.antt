-- ===== src/Observer/Ending.antt =====
-- How the thread of an observer ends behind `stop`.
use yellowstone.Prelude.{
  ℕ, zero, suc, ◌≡◌, refl, ap, sym, subst, ◌∙◌, true, Option, none, some, length, [], ◌∷◌, ◌++◌,
  arith,
}
use yellowstone.Prelude.Int.{ℤ}
use yellowstone.Collections.{Queue, UnorderedMap, GraphPartitionQueue}
use yellowstone.Exchange.{Lease, k_ready_size, k_registry_size}
use yellowstone.Observer.{
  StateType, terminated, Notice, k_max_state_buffer_size, k_mailbox_size, World, Phase, looping,
  checking, counted, sleeping, woken, popping, received, deciding, blocked, ended, change_state,
}
use yellowstone.Observer.Run.{turn, execute}
use yellowstone.Observer.Turns.{turn-queued}
use yellowstone.Observer.Invariant.{IsObserver, change_state_lem, none_queued}
use yellowstone.Observer.System.{
  System, notify_push, notify_count, notify_wake, stop_request, stop_wake,
}
use yellowstone.Observer.Callers.{IsSystem}

-- The places of the thread in `WaitState::execute`.
abbrev pub InWait : Phase → Type 0
InWait looping = ⊥
InWait checking = Unit
InWait (counted c) = Unit
InWait sleeping = Unit
InWait woken = Unit
InWait popping = ⊥
InWait (received n) = ⊥
InWait (deciding c) = ⊥
InWait (blocked s) = ⊥
InWait ended = ⊥

module _ {S M Q R P E : Type 0} ⦃states : Queue StateType S k_max_state_buffer_size⦄
    ⦃mail : Queue Notice M k_mailbox_size⦄ ⦃queue : Queue ℤ Q k_ready_size⦄
    ⦃registry : UnorderedMap ℤ Lease R k_registry_size⦄ ⦃partitions : GraphPartitionQueue E P⦄ where
  -- `n` steps of the thread with no other step between them.
  unfoldable pub turns : ℕ → World S M Q R P E → Option (World S M Q R P E)
  turns zero w = some w
  turns (suc n) w = elim (turn true w) [ none ↦ none | some next ↦ turns n next ]

  pub turns_step :
      (n : ℕ) (w next : World S M Q R P E)
      → turn true w ≡ some next
      → turns (suc n) w ≡ turns n next
  unfolding turns
  turns_step n w next e = ground (arith, e)

  -- The thread has ended, and the mailbox and the dispatched events are those of `w`.
  abbrev pub Ended : World S M Q R P E → Option (World S M Q R P E) → Type 0
  Ended w none = ⊥
  Ended w (some after) =
      (after.phase ≡ ended)
      × (mail.contents after.observer.mailbox ≡ mail.contents w.observer.mailbox)
      × (after.dispatched ≡ w.dispatched)

  stay_ended : (n : ℕ) (w : World S M Q R P E) → w.phase ≡ ended → turns n w ≡ some w
  unfolding turns turn
  stay_ended zero w at = refl
  stay_ended (suc n) w at = ground (arith, stay_ended n w at)

  turn-empty :
      (w : World S M Q R P E)
      → w.phase ≡ looping
      → states.contents w.observer.states ≡ []
      → turn true w ≡ some (record w { phase = ended })
  unfolding turn
  turn-empty w at none_left = ground (arith, (states.is_empty_iff w.observer.states).1 none_left)

  -- The world in which `TerminatedState::execute` has cleared the queued states.
  abbrev cleared : World S M Q R P E → World S M Q R P E
  cleared w = record w {
    observer = record w.observer { states = states.clear (states.pop w.observer.states).0 };
  }

  turn-terminated :
      (w : World S M Q R P E)
      → w.phase ≡ looping
      → states.contents w.observer.states ≡ terminated ∷ []
      → turn true w ≡ some (cleared w)
  unfolding execute
  turn-terminated w at queued = (turn-queued terminated [] w at queued).0

  loop-Ended :
      (n : ℕ) (w : World S M Q R P E)
      → w.phase ≡ looping
      → states.contents w.observer.states ≡ terminated ∷ []
      → Ended w (turns (suc (suc n)) w)
  loop-Ended n w at queued =
      let last : World S M Q R P E = record (cleared w) { phase = ended } in
      let e = turns_step (suc n) w (cleared w) (turn-terminated w at queued) in
      let f =
        turns_step n (cleared w) last
          (turn-empty (cleared w) at (states.contents-clear (states.pop w.observer.states).0)) in
      subst (Ended w) (sym (e ∙ f ∙ stay_ended n last refl)) (refl, refl, refl)

  -- The world in which the thread, told to stop, has queued its last state.
  abbrev finishing : World S M Q R P E → World S M Q R P E
  finishing w = record w {
    observer = record w.observer { states = (states.push terminated w.observer.states).0 };
    phase = looping;
  }

  counted-Ended :
      (n : ℕ) (w : World S M Q R P E)
      → w.phase ≡ counted 0
      → w.observer.stop ≡ true
      → states.contents w.observer.states ≡ []
      → Ended w (turns (suc (suc (suc n))) w)
  unfolding turn
  counted-Ended n w at told none_left =
      let c = change_state_lem terminated w.observer none_left in
      subst (Ended w) (sym (turns_step (suc (suc n)) w (finishing w) (stopping_turn c.0)))
        (loop-Ended n (finishing w) refl c.1)
    where
      stopping_turn :
          change_state true terminated w.observer
            ≡ some (record w.observer { states = (states.push terminated w.observer.states).0 })
          → turn true w ≡ some (finishing w)
      stopping_turn c = ground arith

  -- The calls `notify n` and then `stop`, whole.
  unfoldable pub notify_then_stop : Notice → System S M Q R P E → System S M Q R P E
  unfolding notify_push notify_count notify_wake stop_request stop_wake
  notify_then_stop n s = stop_wake (stop_request (notify_wake (notify_count (notify_push n s))))

  -- In a debug build, where a thread with an empty mailbox has loaded the count in its wait and then
  -- one caller runs `notify` and `stop` before the thread loads the stop flag, the thread ends with
  -- three more steps, without dispatching anything, and the notice stays in the mailbox.
  pub notify_then_stop-Ended :
      (n : Notice) (s : System S M Q R P E)
      → IsSystem s
      → s.world.phase ≡ counted 0
      → mail.contents s.world.observer.mailbox ≡ []
      → Ended (notify_then_stop n s).world (turns 3 (notify_then_stop n s).world)
        × (mail.contents (notify_then_stop n s).world.observer.mailbox ≡ n ∷ [])
  unfolding notify_then_stop
  notify_then_stop-Ended n s v at empty =
      let o = s.world.observer in
      let room = mail.push_room n o.mailbox (omega (arith, ap length empty)) in
      let a : IsObserver s.pushed s.counting s.stopping o (counted 0) =
        subst (IsObserver s.pushed s.counting s.stopping o) at v in
      (
        counted-Ended 0 (notify_then_stop n s).world at refl
            (none_queued s.pushed s.counting s.stopping o (counted 0) refl a),
        room.1 ∙ ap (λ c. c ++ n ∷ []) empty,
      )
