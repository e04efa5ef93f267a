-- ===== src/Observer/Callers.antt =====
-- The atomic steps of `notify`, `stop` and `start` keep an observer well formed.
use yellowstone.Prelude.{
  ℕ, ◌+◌, ◌-◌, ◌%◌, ◌^◌, ◌<◌, ◌≡◌, inl, inr, ap, sym, subst, ◌∙◌, true, length, List, [], ◌∷◌,
  arith, Bool-cases, length-append,
}
use yellowstone.Collections.{Queue}
use yellowstone.Observer.{
  StateType, Notice, k_max_state_buffer_size, k_mailbox_size, Observer, Phase, looping, checking,
  counted, sleeping, woken, popping, received, deciding, blocked, ended,
}
use yellowstone.Observer.Invariant.{IsObserver, Alert, Due, slots, taken, taken-le}
use yellowstone.Observer.System.{
  System, notify_push, notify_count, notify_wake, stop_request, stop_wake, start,
}

due_more : (count : ℕ) (c : List StateType) → Due count c → Due (count + 1) c
due_more count [] d = tt
due_more count (StateType.waiting ∷ r) d = tt
due_more count (StateType.acquire ∷ r) d = omega arith
due_more count (StateType.draining ∷ r) d = tt
due_more count (StateType.release ∷ r) d = tt
due_more count (StateType.teardown ∷ r) d = tt
due_more count (StateType.terminated ∷ r) d = tt

module _ {S M : Type 0} ⦃states : Queue StateType S k_max_state_buffer_size⦄
    ⦃mail : Queue Notice M k_mailbox_size⦄ where
  -- `Alert` under the atomic steps of the callers.
  Alert-count :
      (pushed counting stopping : ℕ) (o : Observer S M) (phase : Phase)
      → Alert pushed counting stopping o phase
      → Alert
          (pushed - 1)
          (counting + 1)
          stopping
          (record o { mailbox_count = o.mailbox_count + 1 })
          phase
  Alert-count pushed counting stopping o looping v = tt
  Alert-count pushed counting stopping o checking v = tt
  Alert-count pushed counting stopping o (counted c) v = ground arith
  Alert-count pushed counting stopping o sleeping v = ground arith
  Alert-count pushed counting stopping o woken v = tt
  Alert-count pushed counting stopping o popping v = tt
  Alert-count pushed counting stopping o (received n) v = omega arith
  Alert-count pushed counting stopping o (deciding c) v = omega arith
  Alert-count pushed counting stopping o (blocked b) v = tt
  Alert-count pushed counting stopping o ended v = tt

  Alert-wake :
      (pushed counting stopping : ℕ) (o : Observer S M) (phase : Phase)
      → Alert pushed counting stopping o phase
      → Alert pushed (counting - 1) stopping (record o { wake = 1 }) phase
  Alert-wake pushed counting stopping o looping v = tt
  Alert-wake pushed counting stopping o checking v = tt
  Alert-wake pushed counting stopping o (counted c) v = ground arith
  Alert-wake pushed counting stopping o sleeping v = ground arith
  Alert-wake pushed counting stopping o woken v = tt
  Alert-wake pushed counting stopping o popping v = tt
  Alert-wake pushed counting stopping o (received n) v = v
  Alert-wake pushed counting stopping o (deciding c) v = v
  Alert-wake pushed counting stopping o (blocked b) v = tt
  Alert-wake pushed counting stopping o ended v = tt

  Alert-stop :
      (pushed counting stopping : ℕ) (o : Observer S M) (phase : Phase)
      → Alert pushed counting stopping o phase
      → Alert pushed counting (stopping + 1) (record o { stop = true }) phase
  Alert-stop pushed counting stopping o looping v = tt
  Alert-stop pushed counting stopping o checking v = tt
  Alert-stop pushed counting stopping o (counted c) v = ground arith
  Alert-stop pushed counting stopping o sleeping v = ground arith
  Alert-stop pushed counting stopping o woken v = tt
  Alert-stop pushed counting stopping o popping v = tt
  Alert-stop pushed counting stopping o (received n) v = v
  Alert-stop pushed counting stopping o (deciding c) v = v
  Alert-stop pushed counting stopping o (blocked b) v = tt
  Alert-stop pushed counting stopping o ended v = tt

  Alert-stop_wake :
      (pushed counting stopping : ℕ) (o : Observer S M) (phase : Phase)
      → Alert pushed counting stopping o phase
      → Alert pushed counting (stopping - 1) (record o { wake = 1 }) phase
  Alert-stop_wake pushed counting stopping o looping v = tt
  Alert-stop_wake pushed counting stopping o checking v = tt
  Alert-stop_wake pushed counting stopping o (counted c) v = ground arith
  Alert-stop_wake pushed counting stopping o sleeping v = ground arith
  Alert-stop_wake pushed counting stopping o woken v = tt
  Alert-stop_wake pushed counting stopping o popping v = tt
  Alert-stop_wake pushed counting stopping o (received n) v = v
  Alert-stop_wake pushed counting stopping o (deciding c) v = v
  Alert-stop_wake pushed counting stopping o (blocked b) v = tt
  Alert-stop_wake pushed counting stopping o ended v = tt

  Alert-push :
      (pushed more counting stopping : ℕ) (o : Observer S M) (m : M) (phase : Phase)
      → Alert pushed counting stopping o phase
      → Alert more counting stopping (record o { mailbox = m }) phase
  Alert-push pushed more counting stopping o m looping v = tt
  Alert-push pushed more counting stopping o m checking v = tt
  Alert-push pushed more counting stopping o m (counted c) v = v
  Alert-push pushed more counting stopping o m sleeping v = v
  Alert-push pushed more counting stopping o m woken v = tt
  Alert-push pushed more counting stopping o m popping v = tt
  Alert-push pushed more counting stopping o m (received n) v = v
  Alert-push pushed more counting stopping o m (deciding c) v = v
  Alert-push pushed more counting stopping o m (blocked b) v = tt
  Alert-push pushed more counting stopping o m ended v = tt

module _ {S M Q R P E : Type 0} ⦃states : Queue StateType S k_max_state_buffer_size⦄
    ⦃mail : Queue Notice M k_mailbox_size⦄ where
  -- A system is well formed if its observer is, with the calls that are on their way.
  abbrev pub IsSystem : System S M Q R P E → Type 0
  IsSystem s = IsObserver s.pushed s.counting s.stopping s.world.observer s.world.phase

  pub notify_push-IsSystem :
      (n : Notice) (s : System S M Q R P E) → IsSystem s → IsSystem (notify_push n s)
  unfolding notify_push
  notify_push-IsSystem n s v =
      let o = s.world.observer in
      elim (Bool-cases (mail.push n o.mailbox).1) [
        | inl done ↦
            let held = mail.push_done n o.mailbox done in
            let longer : length (mail.contents (mail.push n o.mailbox).0)
                ≡ length (mail.contents o.mailbox) + 1 =
              ap length held ∙ length-append (mail.contents o.mailbox) (n ∷ []) in
            record {
              conserved = ground (arith, v.conserved, longer);
              single = v.single;
              due = v.due;
              alert =
                  Alert-push s.pushed (notify_push n s).pushed s.counting s.stopping o
                    (mail.push n o.mailbox).0 s.world.phase v.alert;
            }
        | inr full ↦
            let same = ap length (mail.push_refused n o.mailbox full) in
            record {
              conserved = ground (arith, v.conserved, same);
              single = v.single;
              due = v.due;
              alert =
                  Alert-push s.pushed (notify_push n s).pushed s.counting s.stopping o
                    (mail.push n o.mailbox).0 s.world.phase v.alert;
            }
      ]

  pub notify_count-IsSystem :
      (s : System S M Q R P E) → 0 < s.pushed → IsSystem s → IsSystem (notify_count s)
  unfolding notify_count
  notify_count-IsSystem s some_pushed v =
      let o = s.world.observer in
      let no_wrap : (o.mailbox_count + 1) % 2 ^ 32 ≡ o.mailbox_count + 1 =
        omega (arith, v.conserved, mail.bounded o.mailbox, taken-le s.world.phase) in
      record {
        conserved = omega (arith, v.conserved, no_wrap);
        single = v.single;
        due =
            subst (λ c. Due c (states.contents o.states)) (sym no_wrap)
              (due_more o.mailbox_count (states.contents o.states) v.due);
        alert =
            subst
              (λ c.
                Alert (s.pushed - 1) (s.counting + 1) s.stopping (record o { mailbox_count = c })
                  s.world.phase)
              (sym no_wrap) (Alert-count s.pushed s.counting s.stopping o s.world.phase v.alert);
      }

  pub notify_wake-IsSystem : (s : System S M Q R P E) → IsSystem s → IsSystem (notify_wake s)
  unfolding notify_wake
  notify_wake-IsSystem s v = record {
    conserved = v.conserved;
    single = v.single;
    due = v.due;
    alert = Alert-wake s.pushed s.counting s.stopping s.world.observer s.world.phase v.alert;
  }

  pub stop_request-IsSystem : (s : System S M Q R P E) → IsSystem s → IsSystem (stop_request s)
  unfolding stop_request
  stop_request-IsSystem s v = record {
    conserved = v.conserved;
    single = v.single;
    due = v.due;
    alert = Alert-stop s.pushed s.counting s.stopping s.world.observer s.world.phase v.alert;
  }

  pub stop_wake-IsSystem : (s : System S M Q R P E) → IsSystem s → IsSystem (stop_wake s)
  unfolding stop_wake
  stop_wake-IsSystem s v = record {
    conserved = v.conserved;
    single = v.single;
    due = v.due;
    alert = Alert-stop_wake s.pushed s.counting s.stopping s.world.observer s.world.phase v.alert;
  }

  pub start-IsSystem :
      (s : System S M Q R P E) → s.world.phase ≡ ended → IsSystem s → IsSystem (start s)
  unfolding start
  start-IsSystem s at v = record {
    conserved = omega (arith, v.conserved, ap taken at);
    single = omega (arith, v.single, ap slots at);
    due = v.due;
    alert = tt;
  }
