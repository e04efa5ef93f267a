-- ===== src/Scheduler/Termination.antt =====
-- `stop` returns once the thread that it joins has taken its last steps.
use mathlib.Core.Option
use yellowstone.Prelude.{
  ℕ, zero, suc, ◌≡◌, ◌⊎◌, ◌∙◌, refl, ap, inl, inr, Bool, true, false, arith, Option, none, some,
}
use yellowstone.EventBus.{
  Result, ok, err, invalid_argument, logic_error, length_error, out_of_range, overflow_error,
  other_error,
}
use yellowstone.EventBus.Publish.{PublishResult}
use yellowstone.Prelude.Int.{ℤ}
use yellowstone.Scheduler.{
  ScheduledItem, EarlierDeadline, Phase, looping, waiting, timing, publishing, retrying, finished,
  Thread, Scheduler, request_stop, join,
}
use yellowstone.Scheduler.Run.{run_loop, run_timed, run_published, run_phase, m_run}
use yellowstone.Scheduler.Settling.{StandsAt}

module _ {ℓ} {Payload : Type ℓ} where
  -- Steps of the thread; the clock, the bus and the allocator answer each of them.
  unfoldable pub run_steps :
      ℕ
      → (timed_out : ℕ → Bool) → (published : ℕ → Result PublishResult) → (fresh : ℕ → ℕ)
      → Scheduler Payload
      → Scheduler Payload
  unfolding m_run
  run_steps zero timed_out published fresh s = s
  run_steps (suc n) timed_out published fresh s =
      run_steps n timed_out published fresh (m_run (timed_out n) (published n) (fresh n) s)

  module _ (timed_out : Bool) (published : Result PublishResult) (fresh : ℕ) where
    m_run-phase :
        (p : Phase Payload) (stop : Bool) (s : Scheduler Payload)
        → StandsAt p stop s
        → m_run timed_out published fresh s ≡ run_phase timed_out published fresh p stop s
    unfolding m_run
    m_run-phase p stop s here =
        ap
          (λ w. elim w [
            | none ↦ s
            | some t ↦ run_phase timed_out published fresh t.phase t.stop_requested s
          ])
          here

    step-ended :
        (s : Scheduler Payload)
        → StandsAt finished true s
        → StandsAt finished true (m_run timed_out published fresh s)
    unfolding run_phase
    step-ended s here = ap (λ c. c.worker) (m_run-phase finished true s here) ∙ here

    step-looping :
        (s : Scheduler Payload)
        → StandsAt looping true s
        → StandsAt finished true (m_run timed_out published fresh s)
    unfolding run_phase run_loop
    step-looping s here = ap (λ c. c.worker) (m_run-phase looping true s here)

    step-waiting :
        (s : Scheduler Payload)
        → StandsAt waiting true s
        → StandsAt looping true (m_run timed_out published fresh s)
    unfolding run_phase
    step-waiting s here = ap (λ c. c.worker) (m_run-phase waiting true s here)

    step-retrying :
        (s : Scheduler Payload)
        → StandsAt retrying true s
        → StandsAt looping true (m_run timed_out published fresh s)
    unfolding run_phase
    step-retrying s here = ap (λ c. c.worker) (m_run-phase retrying true s here)

    step-timing :
        (d : ℤ) (o : ℕ) (s : Scheduler Payload)
        → StandsAt (timing d o) true s
        → StandsAt finished true (m_run timed_out published fresh s)
    unfolding run_phase run_timed
    step-timing d o s here = ap (λ c. c.worker) (m_run-phase (timing d o) true s here)

    step-publishing :
        (due : ScheduledItem Payload) (s : Scheduler Payload)
        → StandsAt (publishing due) true s
        → StandsAt looping true (m_run timed_out published fresh s)
          ⊎ StandsAt retrying true (m_run timed_out published fresh s)
    unfolding run_phase run_published
    step-publishing due s here = elim (settled published) [
      | inl e ↦ inl (ap (λ c. c.worker) (m_run-phase (publishing due) true s here) ∙ e)
      | inr e ↦ inr (ap (λ c. c.worker) (m_run-phase (publishing due) true s here) ∙ e)
    ]
      where
        settled :
            (r : Result PublishResult)
            → StandsAt looping true (run_published r fresh due true s)
              ⊎ StandsAt retrying true (run_published r fresh due true s)
        settled (ok x) = inl refl
        settled (err invalid_argument) = inl refl
        settled (err logic_error) = inl refl
        settled (err length_error) = inl refl
        settled (err out_of_range) = inl refl
        settled (err overflow_error) = inr refl
        settled (err other_error) = inl refl

module _ {ℓ} {Payload : Type ℓ} (timed_out : ℕ → Bool) (published : ℕ → Result PublishResult)
    (fresh : ℕ → ℕ) where
  ended-after :
      (n : ℕ) (s : Scheduler Payload)
      → StandsAt finished true s
      → StandsAt finished true (run_steps n timed_out published fresh s)
  unfolding run_steps
  ended-after zero s here = here
  ended-after (suc n) s here =
      ended-after n _ (step-ended (timed_out n) (published n) (fresh n) s here)

  looping-after :
      (n : ℕ) (s : Scheduler Payload)
      → StandsAt looping true s
      → StandsAt finished true (run_steps (suc n) timed_out published fresh s)
  unfolding run_steps
  looping-after n s here =
      ended-after n _ (step-looping (timed_out n) (published n) (fresh n) s here)

  thread-ends :
      (p : Phase Payload) (s : Scheduler Payload)
      → StandsAt p true s
      → StandsAt finished true (run_steps 3 timed_out published fresh s)
  unfolding run_steps
  thread-ends looping s here = looping-after 2 s here
  thread-ends waiting s here =
      looping-after 1 _ (step-waiting (timed_out 2) (published 2) (fresh 2) s here)
  thread-ends retrying s here =
      looping-after 1 _ (step-retrying (timed_out 2) (published 2) (fresh 2) s here)
  thread-ends finished s here = ended-after 3 s here
  thread-ends (timing d o) s here =
      ended-after 2 _ (step-timing (timed_out 2) (published 2) (fresh 2) d o s here)
  thread-ends (publishing due) s here =
      elim (step-publishing (timed_out 2) (published 2) (fresh 2) due s here) [
        | inl e ↦ looping-after 1 _ e
        | inr e ↦ looping-after 0 _ (step-retrying (timed_out 1) (published 1) (fresh 1) _ e)
      ]

  join-ended :
      (s : Scheduler Payload)
      → StandsAt finished true s
      → (after : Scheduler Payload) × (join s ≡ some after)
        × (after.running ≡ false)
        × (after.worker ≡ none)
  unfolding join
  join-ended s here = (record s { running = false; worker = none }, ground arith, refl, refl)

  idle-after :
      (n : ℕ) (s : Scheduler Payload)
      → s.worker ≡ none
      → (run_steps n timed_out published fresh s).worker ≡ none
  unfolding run_steps m_run
  idle-after zero s idle = idle
  idle-after (suc n) s idle = idle-after n _ (stay (timed_out n) (published n) (fresh n))
    where
      stay : (t : Bool) (r : Result PublishResult) (f : ℕ) → (m_run t r f s).worker ≡ none
      stay t r f =
          ap (λ (c : Scheduler Payload). c.worker)
            (ap (λ w. elim w [ none ↦ s | some th ↦ run_phase t r f th.phase th.stop_requested s ])
              idle)
          ∙ idle

  join-idle :
      (s : Scheduler Payload)
      → s.worker ≡ none
      → (after : Scheduler Payload) × (join s ≡ some after)
        × (after.running ≡ false)
        × (after.worker ≡ none)
  unfolding join
  join-idle s idle = (record s { running = false }, ground arith, refl, idle)

  -- Three steps of the thread behind the stop request, wherever it stands in its loop, are enough
  -- for the join of `stop` to return, for any answers of the clock and of the bus; afterwards the
  -- scheduler does not run and has no thread. That a thread in a wait is woken, and so takes its
  -- steps, is assumed.
  pub stop-returns :
      (s : Scheduler Payload)
      → (after : Scheduler Payload) × (join (run_steps 3 timed_out published fresh (request_stop s))
          ≡ some after)
        × (after.running ≡ false)
        × (after.worker ≡ none)
  unfolding request_stop
  stop-returns s = by_worker s.worker refl
    where
      told : Option (Thread Payload) → Option (Thread Payload)
      told = Option.map (λ (t : Thread Payload). record t { stop_requested = true })

      by_worker :
          (w : Option (Thread Payload))
          → s.worker ≡ w
          → (after : Scheduler Payload) × (join
                (run_steps 3 timed_out published fresh (request_stop s))
              ≡ some after)
            × (after.running ≡ false)
            × (after.worker ≡ none)
      by_worker none e = join-idle _ (idle-after 3 (request_stop s) (ap told e))
      by_worker (some t) e = join-ended _ (thread-ends t.phase (request_stop s) (ap told e))
