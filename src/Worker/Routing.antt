-- ===== src/Worker/Routing.antt =====
-- A worker dispatches an event to the controller that was last set for its type.
use yellowstone.Prelude.{
  ℕ, ◌≡◌, refl, sym, ap, subst, Bool, true, Option, none, some, [], ◌∷◌, if◌then◌else◌, arith,
  Bool-cases, inl, inr, Option-cases,
}
use yellowstone.Worker.{
  EventScheduleType, immediate, timestamp, unsupported, type_eq, WorkerEvent, Persistence,
  Controller, Routes, Worker, find_route, router_handle, router_dispatch, handle, dispatch, flush,
  persist,
}

type_eq_refl : (k : EventScheduleType) → type_eq k k ≡ true
unfolding type_eq
type_eq_refl immediate = refl
type_eq_refl timestamp = refl
type_eq_refl unsupported = refl

type_eq_sound : (j k : EventScheduleType) → type_eq j k ≡ true → j ≡ k
unfolding type_eq
type_eq_sound immediate immediate h = refl
type_eq_sound timestamp timestamp h = refl
type_eq_sound unsupported unsupported h = refl
type_eq_sound immediate timestamp h = cc
type_eq_sound immediate unsupported h = cc
type_eq_sound timestamp immediate h = cc
type_eq_sound timestamp unsupported h = cc
type_eq_sound unsupported immediate h = cc
type_eq_sound unsupported timestamp h = cc

module _ {E V W : Type 0} where
  find-handle :
      (k j : EventScheduleType) (c : Option (Controller E V W)) (r : Routes E V W)
      → find_route j (router_handle k c r) ≡ (if type_eq k j then some c else find_route j r)
  unfolding find_route router_handle
  find-handle k j c [] = refl
  find-handle k j c ((i, d) ∷ r) = elim (Bool-cases (type_eq i k)) [
    | inl same ↦ let e = type_eq_sound i k same in ground (arith, ap (λ t. type_eq t j) e)
    | inr other ↦
        ground (arith, find-handle k j c r, type_eq_sound i j, type_eq_sound k j, type_eq_refl j)
  ]

  -- What a controller that may be empty makes of an event.
  unfoldable pub run_controller :
      Option (Controller E V W) → WorkerEvent E V → W → W × Option (WorkerEvent E V)
  run_controller none e w = (w, some e)
  run_controller (some f) e w = f e w

  router_dispatch-handle :
      (k : EventScheduleType) (c : Option (Controller E V W)) (e : WorkerEvent E V)
      (r : Routes E V W) (w : W)
      → router_dispatch (some e) (router_handle k c r) w
        ≡ (if type_eq k e.type then run_controller c e w else router_dispatch (some e) r w)
  unfolding router_dispatch run_controller
  router_dispatch-handle k none e r w = ground (arith, find-handle k e.type none r)
  router_dispatch-handle k (some f) e r w = ground (arith, find-handle k e.type (some f) r)

module _ {E V W D : Type 0} ⦃persistence : Persistence V D⦄ (enabled : Bool) (batch_size : ℕ) where
  persist-routes : (v : V) (s : Worker E V W D) → (persist enabled batch_size v s).routes ≡ s.routes
  unfolding persist flush
  persist-routes v s = ground arith

  -- What `dispatch` returns is what the routes make of the event, whether it is persisted or not.
  abbrev pub Routed :
      Worker E V W D
      → W × Option (WorkerEvent E V)
      → Worker E V W D × W × Option (WorkerEvent E V)
      → Type 0
  Routed s r t = ((t.1, t.2) ≡ r) × (t.0.routes ≡ s.routes)

  dispatch-Routed :
      (e : WorkerEvent E V) (s : Worker E V W D) (w : W)
      → Routed s (router_dispatch (some e) s.routes w) (dispatch enabled batch_size (some e) s w)
  unfolding dispatch
  dispatch-Routed e s w = elim (Option-cases e.persisted) [
    | inl passing ↦
        let r = router_dispatch (some e) s.routes w in
        let t : dispatch enabled batch_size (some e) s w ≡ (s, r.0, r.1) = ground arith in
        subst (Routed s r) (sym t) (refl, refl)
    | inr (v, kept) ↦
        let after = persist enabled batch_size v s in
        let same = persist-routes v s in
        let r = router_dispatch (some e) after.routes w in
        let t : dispatch enabled batch_size (some e) s w ≡ (after, r.0, r.1) = ground arith in
        subst (Routed s (router_dispatch (some e) s.routes w)) (sym t)
          (ap (λ q. router_dispatch (some e) q w) same, same)
  ]

  -- Behind `handle` an event of that type goes to its new controller, or comes back if that is empty,
  -- and every other event goes where it went before; no dispatch changes the routes.
  pub dispatch-handle :
      (k : EventScheduleType) (c : Option (Controller E V W)) (e : WorkerEvent E V)
      (s : Worker E V W D) (w : W)
      → Routed
          (handle k c s)
          (if type_eq k e.type then run_controller c e w else router_dispatch (some e) s.routes w)
          (dispatch enabled batch_size (some e) (handle k c s) w)
  unfolding handle
  dispatch-handle k c e s w =
      subst (λ r. Routed (handle k c s) r (dispatch enabled batch_size (some e) (handle k c s) w))
        (router_dispatch-handle k c e s.routes w) (dispatch-Routed e (handle k c s) w)
