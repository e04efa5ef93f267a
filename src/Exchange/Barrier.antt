-- ===== src/Exchange/Barrier.antt =====
-- The superstep barrier of include/yellowstone/exchange.hpp and source/exchange.cc.
use yellowstone.Prelude.{
  ℕ, ◌⊎◌, inl, inr, refl, ◌+◌, ◌%◌, ◌^◌, ◌≡◌, Bool, true, false, not, if◌then◌else◌, ◌==◌, leb,
}

pub record Graph : Type 0 where
  pub mode : Bool
  pub superstep : ℕ
  pub parties : ℕ
  pub arrived : ℕ
  pub epoch : ℕ

unfoldable pub new_graph : Graph
new_graph = record { mode = false; superstep = 0; parties = 0; arrived = 0; epoch = 0 }

-- `parties` is a `std::size_t` that is stored in 32 bits.
unfoldable pub set_graph_barrier_parties : (parties : ℕ) → Graph → Graph
set_graph_barrier_parties parties g = record g { parties = parties % 2 ^ 32 }

unfoldable pub enable_graph_mode : Graph → Graph
enable_graph_mode g = record g { mode = true }

unfoldable pub begin_graph_epoch : Graph → Graph
begin_graph_epoch g =
    if g.mode
    then g
    else record g { mode = true; superstep = 0; arrived = 0; epoch = (g.epoch + 1) % 2 ^ 64 }

-- What the call does next: it returns, or waits until the superstep has changed.
pub data Arrival : Type 0 where
  passes : Arrival
  waits : Arrival

-- `graph_arrive_and_wait` up to its wait.
unfoldable pub graph_arrive : (observed_superstep : ℕ) → Graph → Graph × Arrival
graph_arrive observed_superstep g =
    if not g.mode
    then (g, passes)
    else if g.parties == 0
    then (g, passes)
    else if not (g.superstep == observed_superstep)
    then (g, passes)
    else let arrived : ℕ = (g.arrived + 1) % 2 ^ 32 in
      if leb g.parties arrived
      then (record g { arrived = 0; superstep = (observed_superstep + 1) % 2 ^ 64 }, passes)
      else (record g { arrived = arrived }, waits)

-- The predicate of the wait.
unfoldable pub released : (observed_superstep : ℕ) → Graph → Bool
released observed_superstep g = not (g.superstep == observed_superstep)

pub Arrival-cases : (a : Arrival) → (a ≡ passes) ⊎ (a ≡ waits)
Arrival-cases passes = inl refl
Arrival-cases waits = inr refl
