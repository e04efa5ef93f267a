-- ===== src/Partition/Queue.antt =====
-- What a partition promises, on the list of the queued events alone: no levels, no index and no
-- positions.
use yellowstone.Prelude.{
  ℕ, ◌+◌, ◌≤◌, ◌≡◌, refl, Bool, true, false, Option, none, some, List, [], ◌∷◌, arith, All, ltb,
  leb, if◌then◌else◌, length,
}
use yellowstone.Event.{Event, Key, key_eq, key_of}
use yellowstone.Exceptions.{Exception, Result, ok, err}
use yellowstone.Partition.{Merger, PushResult, inserted, coalesced, full}

module _ {ℓ} {Payload : Type ℓ} where
  unfoldable pub has_key : Key → List (Event Payload) → Bool
  has_key k [] = false
  has_key k (e ∷ es) = if key_eq (key_of e) k then true else has_key k es

  -- A duplicate changes the payload of the queued event only.
  unfoldable pub coalesce :
      Merger Payload → Event Payload → List (Event Payload) → List (Event Payload)
  coalesce merger e [] = []
  coalesce merger e (d ∷ ds) =
      if key_eq (key_of d) (key_of e)
      then record d { payload = merger.leaves d.payload e.payload } ∷ ds
      else d ∷ coalesce merger e ds

  -- What the merger throws for a duplicate.
  unfoldable pub coalesce_throws :
      Merger Payload → Event Payload → List (Event Payload) → Option Exception
  coalesce_throws merger e [] = none
  coalesce_throws merger e (d ∷ ds) =
      if key_eq (key_of d) (key_of e)
      then merger.throws d.payload e.payload
      else coalesce_throws merger e ds

  -- A new event goes behind every event of its own or a lower superstep.
  unfoldable pub insert_event : Event Payload → List (Event Payload) → List (Event Payload)
  insert_event e [] = e ∷ []
  insert_event e (d ∷ ds) =
      if ltb e.superstep d.superstep then e ∷ d ∷ ds else d ∷ insert_event e ds

  unfoldable pub queue_push :
      Merger Payload
      → ℕ
      → Event Payload
      → List (Event Payload)
      → List (Event Payload) × Result PushResult
  unfolding has_key coalesce coalesce_throws insert_event
  queue_push merger capacity e es =
      if has_key (key_of e) es
      then (
        coalesce merger e es,
        elim (coalesce_throws merger e es) [ none ↦ ok coalesced | some exception ↦ err exception ],
      )
      else if leb capacity (length es)
      then (es, ok full)
      else (insert_event e es, ok inserted)

  unfoldable pub queue_pop : List (Event Payload) → List (Event Payload) × Option (Event Payload)
  queue_pop [] = ([], none)
  queue_pop (e ∷ es) = (es, some e)

  -- Supersteps never descend.
  abbrev pub IsAscending : List (Event Payload) → Type 0
  IsAscending [] = Unit
  IsAscending (e ∷ es) = All (λ d. e.superstep ≤ d.superstep) es × IsAscending es

  pub length-insert_event :
      (e : Event Payload) (es : List (Event Payload)) → length (insert_event e es) ≡ length es + 1
  unfolding insert_event
  length-insert_event e [] = refl
  length-insert_event e (d ∷ ds) = ground (arith, length-insert_event e ds)
