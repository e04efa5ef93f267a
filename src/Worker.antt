-- ===== src/Worker.antt =====
-- source/worker.cc: the routes of a legacy worker and the events that it persists.
--
-- The header of the class is not in the repository, so the batch size is a parameter, and ids are
-- numbers. A controller is a function on a world of the caller's; an empty `std::function` is `none`,
-- and so is a null event.
pub mod Routing
pub mod Flushing
use yellowstone.Prelude.{
  ℕ, zero, suc, ◌+◌, ◌≡◌, Bool, true, false, Option, none, some, List, [], ◌∷◌, ◌++◌, if◌then◌else◌,
  leb, length,
}

pub data EventScheduleType : Type 0 where
  immediate : EventScheduleType
  timestamp : EventScheduleType
  unsupported : EventScheduleType

unfoldable pub type_eq : EventScheduleType → EventScheduleType → Bool
type_eq immediate immediate = true
type_eq immediate timestamp = false
type_eq immediate unsupported = false
type_eq timestamp immediate = false
type_eq timestamp timestamp = true
type_eq timestamp unsupported = false
type_eq unsupported immediate = false
type_eq unsupported timestamp = false
type_eq unsupported unsupported = true

-- An event with its schedule type and, where it is a `PersistedEvent`, what is stored of it.
pub record WorkerEvent (E V : Type 0) : Type 0 where
  pub type : EventScheduleType
  pub persisted : Option V
  pub body : E

-- The persistence of a worker: `store` returns whether it came back without an exception.
pub record Persistence (V D : Type 0) : Type 0 where
  pub store : (id : ℕ) → V → D → D × Bool
  pub stored : D → List (ℕ × V)
  pub store_done :
      (id : ℕ) (v : V) (d : D)
      → (store id v d).1 ≡ true
      → stored (store id v d).0 ≡ stored d ++ (id, v) ∷ []
  pub store_thrown :
      (id : ℕ) (v : V) (d : D) → (store id v d).1 ≡ false → stored (store id v d).0 ≡ stored d

abbrev pub Controller : Type 0 → Type 0 → Type 0 → Type 0
Controller E V W = WorkerEvent E V → W → W × Option (WorkerEvent E V)

abbrev pub Routes : Type 0 → Type 0 → Type 0 → Type 0
Routes E V W = List (EventScheduleType × Option (Controller E V W))

pub record Worker (E V W D : Type 0) : Type 0 where
  pub routes : Routes E V W
  pub pending_events : List V
  pub next_event_id : ℕ
  pub disk : D

module _ {E V W : Type 0} where
  unfoldable pub find_route : EventScheduleType → Routes E V W → Option (Option (Controller E V W))
  unfolding type_eq
  find_route k [] = none
  find_route k ((j, c) ∷ rest) = if type_eq j k then some c else find_route k rest

  -- `m_routes[type] = controller`.
  unfoldable pub router_handle :
      EventScheduleType → Option (Controller E V W) → Routes E V W → Routes E V W
  unfolding type_eq
  router_handle k c [] = (k, c) ∷ []
  router_handle k c ((j, d) ∷ rest) =
      if type_eq j k then (j, c) ∷ rest else (j, d) ∷ router_handle k c rest

  -- `m_get`, where `none` is the empty controller.
  unfoldable pub get_route : EventScheduleType → Routes E V W → Option (Controller E V W)
  unfolding find_route
  get_route k routes = elim (find_route k routes) [ none ↦ none | some c ↦ c ]

  unfoldable pub router_dispatch :
      Option (WorkerEvent E V) → Routes E V W → W → W × Option (WorkerEvent E V)
  unfolding find_route
  router_dispatch none routes w = (w, none)
  router_dispatch (some e) routes w = elim (find_route e.type routes) [
    | none ↦ (w, some e)
    | some found ↦ elim found [ none ↦ (w, some e) | some controller ↦ controller e w ]
  ]

module _ {E V W D : Type 0} ⦃persistence : Persistence V D⦄ where
  unfoldable pub handle :
      EventScheduleType → Option (Controller E V W) → Worker E V W D → Worker E V W D
  unfolding router_handle
  handle k c s = record s { routes = router_handle k c s.routes }

-- The loop of `flush`: the id behind the loop, and whether no `store` has thrown.
unfoldable pub store_all :
    {V D : Type 0} ⦃persistence : Persistence V D⦄ → List V → ℕ → D → ℕ × D × Bool
store_all [] id d = (id, d, true)
store_all ⦃persistence⦄ (v ∷ vs) id d =
    let (after, done) = persistence.store id v d in
    let rest = store_all vs (suc id) after in if done then rest else (suc id, after, false)

module _ {E V W D : Type 0} ⦃persistence : Persistence V D⦄ (enabled : Bool) where
  -- `enabled` is the macro EVENT_ENABLE_PERSISTENCE.
  unfoldable pub flush : Worker E V W D → Worker E V W D
  unfolding store_all
  flush s =
      if enabled
      then (let (id, d, done) = store_all s.pending_events s.next_event_id s.disk in
          record s {
            next_event_id = id;
            disk = d;
            pending_events = if done then [] else s.pending_events;
          })
      else record s { pending_events = [] }

  unfoldable pub persist : (batch_size : ℕ) → V → Worker E V W D → Worker E V W D
  unfolding flush
  persist batch_size v s =
      let t : Worker E V W D = record s { pending_events = s.pending_events ++ v ∷ [] } in
      if leb batch_size (length t.pending_events) then flush t else t

  unfoldable pub dispatch :
      (batch_size : ℕ)
      → Option (WorkerEvent E V)
      → Worker E V W D
      → W
      → Worker E V W D × W × Option (WorkerEvent E V)
  unfolding persist router_dispatch
  dispatch batch_size none s w = (s, w, none)
  dispatch batch_size (some e) s w =
      let after : Worker E V W D = elim e.persisted [
        | none ↦ s
        | some v ↦ persist batch_size v s
      ] in
      let (w', out) = router_dispatch (some e) after.routes w in (after, w', out)
