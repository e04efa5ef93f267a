-- ===== src/Event.antt =====
-- include/yellowstone/event.hpp and event.inl: the event value and its metadata. The four id types
-- are `std::uint64_t`; an id is a number here, and where one is counted up its wrap-around is
-- written out.
use yellowstone.Prelude.{ℕ, Bool, ◌&&◌, ◌==◌}

pub record Event {ℓ} (Payload : Type ℓ) : Type ℓ where
  pub id : ℕ
  pub superstep : ℕ
  pub sequence : ℕ
  pub payload : Payload

-- `Partition::Key` of partition.hpp: what makes two queued events the same.
pub record Key : Type 0 where
  pub id : ℕ
  pub superstep : ℕ

abbrev pub key_eq : Key → Key → Bool
key_eq j k = (j.id == k.id) && (j.superstep == k.superstep)

-- `Partition::m_key`.
abbrev pub key_of {ℓ} : {Payload : Type ℓ} → Event Payload → Key
key_of e = record { id = e.id; superstep = e.superstep }
