-- ===== src/Restore/Slots.antt =====
-- restore/slots.go: the logical replication slots of the target, dropped and created again behind the
-- swap. The calls on the two sessions, of the admin database and of the target, are a parameter.
pub mod Rebound
use pg_snapshot.Base.{Bool, true, false, List, [], ◌∷◌, ◌++◌, ◌⊎◌, inl, inr, map, is_nil}
use pg_snapshot.Base.{if◌then◌else◌, Option, none, some}
use pg_snapshot.Base.Bytes.{Bytes}
use pg_snapshot.Base.Act.{Act, ◌>>=◌, ◌>>◌, give, throw, wrapped}

pub record Slot : Type 0 where
  pub name : Bytes
  pub plugin : Bytes
  pub two_phase : Bool

pub data SlotError : Type 0 where
  inspecting dropping_slot creating_slot connecting : Bytes → SlotError
  in_use : SlotError

abbrev pub slot_names : List Slot → List Bytes
slot_names slots = map (λ (s : Slot). s.name) slots

-- The session that a statement runs on: `Slots.Admin`, or the pool that `Rebind` opens.
pub data Session : Type 0 where
  admin_session : Session
  target_session : Bytes → Session

-- `find_slot` answers whether the slot is active, and with nothing if there is none by that name.
pub record SlotCalls (W : Type 0) : Type 0 where
  pub connect : Bytes → Act W Bytes (Unit {0})
  pub find_slot : Session → Bytes → Act W Bytes (Option Bool)
  pub drop_slot : Session → Bytes → Act W Bytes (Unit {0})
  pub create_slot : Session → Bytes → Bytes → Bool → Act W Bytes (Unit {0})

module _ {W : Type 0} (calls : SlotCalls W) where
  open calls use {connect, find_slot, drop_slot, create_slot}

  -- The `switch` of `rebindOne`.
  abbrev pub drop_orphan : Slot → Option Bool → Act W SlotError (Unit {0})
  drop_orphan slot none = give tt
  drop_orphan slot (some true) = throw in_use
  drop_orphan slot (some false) = wrapped dropping_slot (drop_slot admin_session slot.name)

  unfoldable pub rebind_one : Bytes → Slot → Act W SlotError (Unit {0})
  rebind_one url slot = do
    found ← wrapped inspecting (find_slot admin_session slot.name)
    drop_orphan slot found
    wrapped creating_slot (create_slot (target_session url) slot.name slot.plugin slot.two_phase)

  abbrev pub error_of : SlotError ⊎ Unit {0} → Option SlotError
  error_of (inl e) = some e
  error_of (inr _) = none

  -- The loop of `Rebind`, with what is logged: each slot and its error.
  unfoldable pub rebind_all : Bytes → List Slot → W → List (Slot × Option SlotError) × W
  unfolding rebind_one
  rebind_all url [] w = ([], w)
  rebind_all url (slot ∷ rest) w =
      let (r, w1) = rebind_one url slot w in
      let (log, w2) = rebind_all url rest w1 in ((slot, error_of r) ∷ log, w2)

  abbrev pub connected :
      Bytes → List Slot → (Bytes ⊎ Unit {0}) × W → List (Slot × Option SlotError) × W
  unfolding rebind_all
  connected url slots (inl e, w) = (map (λ slot. (slot, some (connecting e))) slots, w)
  connected url slots (inr _, w) = rebind_all url slots w

  unfoldable pub rebind : Bytes → List Slot → W → List (Slot × Option SlotError) × W
  unfolding connected
  rebind url slots w = if is_nil slots then ([], w) else connected url slots (connect url w)
