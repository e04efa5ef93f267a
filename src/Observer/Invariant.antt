-- ===== src/Observer/Invariant.antt =====
-- What holds of an observer between two steps: one state is queued at most, the count is that of the
-- notices in the mailbox and of the one that the thread has popped and not counted down, and a thread that sleeps has not missed a notice or a stop.
use yellowstone.Prelude.{
  ℕ, ◌+◌, ◌≤◌, ◌<◌, ◌≡◌, ◌⊎◌, ap, sym, subst, ◌∙◌, true, false, Option, none, some, length, List,
  [], ◌∷◌, ◌++◌, arith, eq_nil_of_length,
}
use yellowstone.Prelude.Int.{ℤ}
use yellowstone.Collections.{Queue, UnorderedMap, GraphPartitionQueue}
use yellowstone.Exchange.{Lease, k_ready_size, k_registry_size}
use yellowstone.Observer.{
  StateType, Notice, k_max_state_buffer_size, k_mailbox_size, Observer, World, Phase, looping,
  checking, counted, sleeping, woken, popping, received, deciding, blocked, ended, change_state,
}
use yellowstone.Observer.Run.{resume}

-- How many states are queued at most where the thread stands.
abbrev pub slots : Phase → ℕ
slots looping = 1
slots checking = 0
slots (counted c) = 0
slots sleeping = 0
slots woken = 0
slots popping = 0
slots (received n) = 0
slots (deciding c) = 0
slots (blocked s) = 0
slots ended = 0

-- A notice that the thread has popped and not yet counted down.
abbrev pub taken : Phase → ℕ
taken looping = 0
taken checking = 0
taken (counted c) = 0
taken sleeping = 0
taken woken = 0
taken popping = 0
taken (received n) = 1
taken (deciding c) = 0
taken (blocked s) = 0
taken ended = 0

pub taken-le : (phase : Phase) → taken phase ≤ 1
taken-le looping = omega arith
taken-le checking = omega arith
taken-le (counted c) = omega arith
taken-le sleeping = omega arith
taken-le woken = omega arith
taken-le popping = omega arith
taken-le (received n) = omega arith
taken-le (deciding c) = omega arith
taken-le (blocked s) = omega arith
taken-le ended = omega arith

-- The state `acquire` is queued only with a notice that is counted.
abbrev pub Due : ℕ → List StateType → Type 0
Due count [] = Unit
Due count (StateType.acquire ∷ r) = 0 < count
Due count (st ∷ r) = Unit

module _ {S M : Type 0} ⦃states : Queue StateType S k_max_state_buffer_size⦄
    ⦃mail : Queue Notice M k_mailbox_size⦄ (pushed counting stopping : ℕ) where
  -- Behind the load of the count, and in the wait, the count is the one loaded unless the wake flag
  -- is set or a notifier is about to set it; so too for the stop flag in the wait.
  abbrev pub Alert : Observer S M → Phase → Type 0
  Alert o looping = Unit
  Alert o checking = Unit
  Alert o (counted c) =
      (c ≤ o.mailbox_count) × ((0 < o.wake) ⊎ ((0 < counting) ⊎ (o.mailbox_count ≡ c)))
  Alert o sleeping =
      ((0 < o.wake) ⊎ ((0 < counting) ⊎ (o.mailbox_count ≡ 0)))
      × ((0 < o.wake) ⊎ ((0 < stopping) ⊎ (o.stop ≡ false)))
  Alert o woken = Unit
  Alert o popping = Unit
  Alert o (received n) = 0 < o.mailbox_count
  Alert o (deciding c) = c ≤ o.mailbox_count
  Alert o (blocked s) = Unit
  Alert o ended = Unit

  pub record IsObserver (o : Observer S M) (phase : Phase) : Type 0 where
    pub conserved : o.mailbox_count + pushed ≡ length (mail.contents o.mailbox) + taken phase
    pub single : length (states.contents o.states) ≤ slots phase
    pub due : Due o.mailbox_count (states.contents o.states)
    pub alert : Alert o phase

  -- Where no notice is popped and not counted down, the counts are those of the mailbox.
  pub conserved_lem :
      (o : Observer S M) (phase : Phase)
      → taken phase ≡ 0
      → IsObserver o phase
      → o.mailbox_count + pushed ≡ length (mail.contents o.mailbox)
  conserved_lem o phase none_taken v = omega (arith, v.conserved)

  pub none_queued :
      (o : Observer S M) (phase : Phase)
      → slots phase ≡ 0
      → IsObserver o phase
      → states.contents o.states ≡ []
  none_queued o phase none_allowed v =
      eq_nil_of_length (states.contents o.states) (omega (arith, v.single))

module _ {S M : Type 0} ⦃states : Queue StateType S k_max_state_buffer_size⦄ where
  pub change_state_lem :
      (next : StateType) (o : Observer S M)
      → states.contents o.states ≡ []
      → (change_state true next o ≡ some (record o { states = (states.push next o.states).0 }))
        × (states.contents (states.push next o.states).0 ≡ next ∷ [])
  unfolding change_state
  change_state_lem next o none_queued =
      let pushed = states.push_room next o.states (omega (arith, ap length none_queued)) in
      (ground (arith, pushed.0), pushed.1 ∙ ap (λ c. c ++ next ∷ []) none_queued)

module _ {S M Q R P E : Type 0} ⦃states : Queue StateType S k_max_state_buffer_size⦄
    ⦃mail : Queue Notice M k_mailbox_size⦄ ⦃queue : Queue ℤ Q k_ready_size⦄
    ⦃registry : UnorderedMap ℤ Lease R k_registry_size⦄ ⦃partitions : GraphPartitionQueue E P⦄
    (pushed counting stopping : ℕ) where
  -- The step did not abort, and what it leads to is well formed; or it aborted.
  abbrev pub Kept : Option (World S M Q R P E) → Type 0
  Kept none = Unit
  Kept (some w) = IsObserver pushed counting stopping w.observer w.phase

  -- The change of state `t` that a step makes, from no queued state, succeeds and leads on.
  pub resume-Kept :
      (t : Option (Observer S M)) (next : StateType) (o : Observer S M) (w : World S M Q R P E)
      → t ≡ change_state true next o
      → states.contents o.states ≡ []
      → o.mailbox_count + pushed ≡ length (mail.contents o.mailbox)
      → Due o.mailbox_count (next ∷ [])
      → Kept (resume t w)
  unfolding resume
  resume-Kept t next o w same none_left conserved due =
      let c = change_state_lem next o none_left in
      subst (λ r. Kept (resume r w)) (sym (same ∙ c.0))
        (record {
          conserved = omega arith;
          single = omega (arith, ap length c.1);
          due = subst (Due o.mailbox_count) (sym c.1) due;
          alert = tt;
        })
