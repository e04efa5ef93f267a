-- ===== src/Context.antt =====
-- include/yellowstone/context.hpp and source/context.cc: the workers of a context, the choice of one
-- for an expression, and the evaluation in the caller's thread. `subscribe` of source/event_bus.cc,
-- whose header is not in the repository, has the size of its array of subscribers as an argument.
--
-- What evaluates expressions and what keeps account of the devices' loads are of other components;
-- `ScalarEngine`, `WordEngine` and `Bookkeeper` name the calls of them, of which nothing is assumed.
-- An expression is null or has a number of nodes.
pub mod Workers
pub mod Traces
use yellowstone.Prelude.{
  ℕ, zero, suc, ◌+◌, ◌-◌, ◌%◌, ◌^◌, ◌≡◌, ◌≢◌, Bool, true, false, not, Option, none, some, List, [],
  ◌∷◌, ◌++◌, if◌then◌else◌, ltb, leb, ◌==◌, length,
}
use yellowstone.Exchange.Barrier.{Graph, set_graph_barrier_parties}

abbrev pub k_max_workers : ℕ
k_max_workers = 16

-- `hc` is what `std::thread::hardware_concurrency` returns.
unfoldable pub default_worker_count : (hc : ℕ) → ℕ
default_worker_count hc = let v : ℕ = if hc == 0 then 1 else hc in if leb v 16 then v else 16

unfoldable pub estimate_load : (expr : Option ℕ) → ℕ
estimate_load none = 1
estimate_load (some nodes) =
    let load : ℕ = if nodes == 0 then 1 else nodes in
    if ltb 0xFFFFFFFF load then 0xFFFFFFFF else load

-- A subscriber's id, and the index of the worker that observes for it.
pub record LegacySubscriber : Type 0 where
  pub id : ℕ
  pub observer : ℕ

-- `subscribers` are those below `m_num_subscribers`; a write at `size` or above is undefined.
unfoldable pub subscribe :
    (size : ℕ) → (observer : ℕ) → List LegacySubscriber → Option (List LegacySubscriber)
subscribe size observer subscribers =
    if ltb (length subscribers) size
    then some (subscribers ++ record { id = length subscribers; observer = observer } ∷ [])
    else none

-- The loop of the constructor, from a worker id on.
unfoldable pub subscribe_all :
    (size rounds worker_id : ℕ) → List LegacySubscriber → Option (List LegacySubscriber)
subscribe_all size zero worker_id subscribers = some subscribers
subscribe_all size (suc rounds) worker_id subscribers =
    elim (subscribe size worker_id subscribers) [
      | none ↦ none
      | some after ↦ subscribe_all size rounds (suc worker_id) after
    ]

pub data StateType : Type 0 where
  running : StateType
  terminated : StateType

pub record Context : Type 0 where
  pub num_workers : ℕ
  pub state : StateType
  pub graph : Graph
  pub subscribers : List LegacySubscriber
  pub inline_execution : Bool
  pub rr_expression_worker : ℕ

-- `graph` is the barrier of the new exchange.
unfoldable pub make_context :
    (size : ℕ) → Graph → (num_workers : ℕ) → (inline_execution : Bool) → Option Context
unfolding subscribe_all set_graph_barrier_parties
make_context size graph num_workers inline_execution =
    let n : ℕ = if leb num_workers k_max_workers then num_workers else k_max_workers in
    elim (subscribe_all size n 0 []) [
      | none ↦ none
      | some subscribers ↦ some (record {
        num_workers = n;
        state = running;
        graph = set_graph_barrier_parties n graph;
        subscribers = subscribers;
        inline_execution = inline_execution;
        rr_expression_worker = 0;
      })
    ]

-- The worker that `publish_one` is called for.
unfoldable pub choose_worker : Context → Context × ℕ
choose_worker c = if c.num_workers == 0 then (c, 0) else (
  record c { rr_expression_worker = (c.rr_expression_worker + 1) % 2 ^ 64 },
  c.rr_expression_worker % c.num_workers,
)

unfoldable pub drop {ℓ} : {A : Type ℓ} → ℕ → List A → List A
drop zero xs = xs
drop (suc n) [] = []
drop (suc n) (x ∷ xs) = drop n xs

-- The code of the last evaluation, pushed to a trace that holds `limit` codes at most.
unfoldable pub push_trace : (limit code : ℕ) → List ℕ → List ℕ
unfolding drop
push_trace limit code trace =
    if limit == 0
    then trace
    else if leb limit (length trace)
    then drop ((length trace + 1) - limit) trace ++ code ∷ []
    else trace ++ code ∷ []

-- What keeps account of the loads of the two devices. `push` returns the device that it chose.
pub record Bookkeeper (B : Type 0) : Type 0 where
  pub push : ℕ → B → B × ℕ
  pub pop_cpu : ℕ → B → B
  pub pop_gpu : ℕ → B → B

-- Evaluation of a scalar, with a memory form or without.
pub record ScalarEngine (Expr F : Type 0) : Type 0 where
  pub nodes : Expr → Option ℕ
  pub eval_scalar : (memssa : Bool) → Expr → F

-- Evaluation of a word on the device that is chosen, on an interpreter state whose backend is set
-- first.
pub record WordEngine (Expr St : Type 0) : Type 0 where
  pub nodes : Expr → Option ℕ
  pub set_backend : (cuda : Bool) → St → St
  pub eval_word : (cuda : Bool) → Expr → St → St × ℕ

module _ {B Expr F : Type 0} ⦃book : Bookkeeper B⦄ ⦃engine : ScalarEngine Expr F⦄ where
  -- `publish_expression` with inline execution.
  unfoldable pub publish_expression_inline : Expr → (memssa : Bool) → B → B × F
  unfolding estimate_load
  publish_expression_inline expr memssa b =
      let load : ℕ = estimate_load (engine.nodes expr) in
      let (pushed, device) = book.push load b in
      (book.pop_cpu load pushed, engine.eval_scalar memssa expr)

module _ {B Expr St : Type 0} ⦃book : Bookkeeper B⦄ ⦃engine : WordEngine Expr St⦄ where
  -- `publish_word_expression` with inline execution.
  unfoldable pub publish_word_expression_inline : Expr → St → B → B × St × ℕ
  unfolding estimate_load
  publish_word_expression_inline expr st b =
      let load : ℕ = estimate_load (engine.nodes expr) in
      let (pushed, device) = book.push load b in
      let cuda : Bool = device == 1 in
      let (after, out) = engine.eval_word cuda expr (engine.set_backend cuda st) in
      (if cuda then book.pop_gpu load pushed else book.pop_cpu load pushed, after, out)

  -- `publish_word_expression_async` with inline execution: the ticket's result, and the trace of the
  -- state, whose limit is `limit`. `exception` is the pending exception of the host, if any.
  unfoldable pub publish_word_expression_async_inline :
      (limit : ℕ) → (exception : Option ℕ) → (trace : List ℕ) → Expr → St → B → B × St × List ℕ × ℕ
  unfolding publish_word_expression_inline push_trace
  publish_word_expression_async_inline limit exception trace expr st b =
      let (after_b, after, out) = publish_word_expression_inline expr st b in
      let code : ℕ = elim exception [ none ↦ 0 | some id ↦ id % 2 ^ 32 ] in
      (after_b, after, push_trace limit code trace, out)
