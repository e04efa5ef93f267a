-- ===== src/Exchange/Supersteps.antt =====
-- The workers' arrivals at the superstep barrier.
use yellowstone.Prelude.{
  ℕ, zero, suc, ◌+◌, ◌%◌, ◌^◌, ◌<◌, ◌≡◌, refl, ap, arith, true, false, List, [], ◌∷◌, ◌++◌,
  replicate, ==_refl,
}
use yellowstone.Exchange.Barrier.{Graph, Arrival, passes, waits, graph_arrive, released}

-- `n` calls of `graph_arrive_and_wait`, one after the other, up to their waits.
unfoldable pub arrive_all : (n : ℕ) → (observed_superstep : ℕ) → Graph → Graph × List Arrival
arrive_all zero s g = (g, [])
arrive_all (suc n) s g =
    let (before, arrivals) = arrive_all n s g in
    let (after, a) = graph_arrive s before in (after, arrivals ++ a ∷ [])

replicate_snoc {ℓ} : {A : Type ℓ} (n : ℕ) (a : A) → replicate n a ++ a ∷ [] ≡ a ∷ replicate n a
replicate_snoc zero a = refl
replicate_snoc (suc n) a = ap (λ r. a ∷ r) (replicate_snoc n a)

abbrev pub waiting : Graph → ℕ → Graph
waiting g k = record g { arrived = k }

abbrev pub advanced : Graph → Graph
advanced g = record g { superstep = (g.superstep + 1) % 2 ^ 64; arrived = 0 }

module _ (g : Graph) (mode : g.mode ≡ true) (size : g.parties < 2 ^ 32) where
  arrive_early :
      (k : ℕ)
      → suc k < g.parties
      → graph_arrive g.superstep (waiting g k) ≡ (waiting g (suc k), waits)
  unfolding graph_arrive
  arrive_early k low = ground arith

  arrive_last :
      (k : ℕ) → suc k ≡ g.parties → graph_arrive g.superstep (waiting g k) ≡ (advanced g, passes)
  unfolding graph_arrive
  arrive_last k full = ground arith

  arrive_all-waits :
      (k : ℕ)
      → k < g.parties
      → g.arrived ≡ 0
      → arrive_all k g.superstep g ≡ (waiting g k, replicate k waits)
  unfolding arrive_all
  arrive_all-waits zero low none_yet = ground arith
  arrive_all-waits (suc k) low none_yet =
      ground (arith, arrive_all-waits k, arrive_early k, replicate_snoc k waits)

  -- In graph mode, with a party or more and none arrived, all the arrivals but the last wait, and
  -- their wait goes on; the last one passes, resets the count and advances the superstep by one in 64
  -- bits, which ends the waits, and a call that observed the old superstep then passes and changes
  -- nothing.
  pub arrive_all-Advances :
      (k : ℕ)
      → suc k ≡ g.parties
      → g.arrived ≡ 0
      → g.superstep < 2 ^ 64
      → (arrive_all k g.superstep g ≡ (waiting g k, replicate k waits))
        × (released g.superstep (waiting g k) ≡ false)
        × (arrive_all (suc k) g.superstep g ≡ (advanced g, replicate k waits ++ passes ∷ []))
        × (released g.superstep (advanced g) ≡ true)
        × (graph_arrive g.superstep (advanced g) ≡ (advanced g, passes))
  unfolding arrive_all released graph_arrive
  arrive_all-Advances k full none_yet small =
      let early = arrive_all-waits k (omega arith) none_yet in
      (
        early,
        ground (arith, ==_refl g.superstep),
        ground (arith, early, arrive_last k full),
        ground arith,
        ground arith,
      )
