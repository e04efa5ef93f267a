-- ===== src/Context/Workers.antt =====
-- The workers of a context: their number, their subscriptions, and the one chosen.
use native.Mathlib.Nat.{mod-add-mod, mod-lt}
use yellowstone.Prelude.{
  ℕ, zero, suc, ◌+◌, ◌%◌, ◌^◌, ◌≤◌, ◌<◌, ◌≡◌, refl, sym, ap, subst, Bool, some, List, [], ◌∷◌, ◌++◌,
  if◌then◌else◌, arith, leb, length, length-append, append_assoc, append-nil, lt→ltb,
}
use yellowstone.Exchange.Barrier.{Graph, set_graph_barrier_parties}
use yellowstone.Context.{
  LegacySubscriber, Context, running, k_max_workers, subscribe, subscribe_all, make_context,
  choose_worker, default_worker_count,
}

-- The subscribers from id `n` on, each of the worker with its id.
abbrev pub subscribed : (rounds n : ℕ) → List LegacySubscriber
subscribed zero n = []
subscribed (suc rounds) n = record { id = n; observer = n } ∷ subscribed rounds (suc n)

subscribe_all-subscribed :
    (size rounds : ℕ) (subscribers : List LegacySubscriber)
    → length subscribers + rounds ≤ size
    → subscribe_all size rounds (length subscribers) subscribers
      ≡ some (subscribers ++ subscribed rounds (length subscribers))
unfolding subscribe_all subscribe
subscribe_all-subscribed size zero subscribers room = ap some (sym (append-nil subscribers))
subscribe_all-subscribed size (suc rounds) subscribers room =
    let n = length subscribers in
    let after : List LegacySubscriber = subscribers ++ record { id = n; observer = n } ∷ [] in
    let longer : length after ≡ suc n =
      omega (arith, length-append subscribers (record { id = n; observer = n } ∷ [])) in
    let fits = lt→ltb n size (omega arith) in
    let rest = subscribe_all-subscribed size rounds after (omega arith) in
    let e : subscribe_all size rounds (suc n) after ≡ some (after ++ subscribed rounds (suc n)) =
      subst (λ k. subscribe_all size rounds k after ≡ some (after ++ subscribed rounds k)) longer
        rest in
    ground (
      arith,
      e,
      append_assoc subscribers (record { id = n; observer = n } ∷ []) (subscribed rounds (suc n)),
    )

-- With an array of 16 subscribers the constructor stays within it, for any number asked for: there are
-- as many workers as asked for, 16 at most, each is subscribed once under its own index, and the
-- barrier expects as many parties.
pub make_context-Subscribes :
    (graph : Graph) (num_workers : ℕ) (inline_execution : Bool)
    → (c : Context) × (make_context k_max_workers graph num_workers inline_execution ≡ some c)
      × (c.num_workers ≤ k_max_workers)
      × (c.num_workers ≤ num_workers)
      × (c.subscribers ≡ subscribed c.num_workers 0)
      × (c.graph.parties ≡ c.num_workers)
unfolding make_context set_graph_barrier_parties
make_context-Subscribes graph num_workers inline_execution =
    let n : ℕ = if leb num_workers k_max_workers then num_workers else k_max_workers in
    let low : n ≤ k_max_workers = ground arith in
    let asked : n ≤ num_workers = ground arith in
    let e = subscribe_all-subscribed k_max_workers n [] (omega arith) in
    (
      record {
        num_workers = n;
        state = running;
        graph = record graph { parties = n % 2 ^ 32 };
        subscribers = subscribed n 0;
        inline_execution = inline_execution;
        rr_expression_worker = 0;
      },
      ground (arith, e),
      low,
      asked,
      refl,
      omega arith,
    )

-- An expression goes to a worker that exists, if there is one, and the next one goes to the next
-- worker, round the workers, up to the wrap of the counter.
pub choose_worker-Rotates :
    (c : Context)
    → 0 < c.num_workers
    → c.rr_expression_worker + 1 < 2 ^ 64
    → ((choose_worker c).1 < c.num_workers)
      × ((choose_worker (choose_worker c).0).1 ≡ ((choose_worker c).1 + 1) % c.num_workers)
unfolding choose_worker
choose_worker-Rotates c some_worker small = ground (
  arith,
  mod-add-mod c.rr_expression_worker c.num_workers 1,
  mod-lt c.rr_expression_worker some_worker,
)

pub default_worker_count-Bounded :
    (hc : ℕ) → (1 ≤ default_worker_count hc) × (default_worker_count hc ≤ k_max_workers)
unfolding default_worker_count
default_worker_count-Bounded hc = ground arith
