-- ===== src/Restore/Slots/Rebound.antt =====
-- restore/slots.go: what `Rebind` does to the slots of a cluster, however its calls fail.
use pg_snapshot.Base.{◌≡◌, refl, ◌∙◌, ap, Bool, true, false, List, [], ◌∷◌, Option, none, some}
use pg_snapshot.Base.{◌⊎◌, inl, inr, ◌≢◌, if◌then◌else◌, arith, All, map}
use pg_snapshot.Base.Bytes.{Bytes, ◌=?◌, =?_iff, =?_refl}
use pg_snapshot.Base.Dict.{contains, Distinct}
use pg_snapshot.Base.Act.{◌>>◌, settle_act_rule, wrapped_rule, wrapped}
use pg_snapshot.Restore.Slots.{
  Slot, SlotError, SlotCalls, slot_names, rebind_one, rebind_all, rebind, error_of, connected,
  connecting, Session, admin_session, target_session,
}
use pg_snapshot.Restore.Slots.{inspecting, dropping_slot, creating_slot, drop_orphan}

-- A slot of the cluster, and the database that it belongs to.
pub record Held : Type 0 where
  pub active : Bool
  pub plugin : Bytes
  pub two_phase : Bool
  pub database : Bytes

-- The slots of the cluster by name, and the documented behaviour of the calls: an inspection tells
-- whether the slot is there and active, a slot is dropped under its name, a slot is created under its
-- name in the database of the session, a connection changes no slot, and neither does a call that
-- fails.
pub record IsCluster {W : Type 0} (calls : SlotCalls W) : Type 0 where
  pub slot_at : W → Bytes → Option Held
  pub database_at : Session → Bytes
  pub connect_same :
      (url : Bytes) (w : W) (k : Bytes) → slot_at (calls.connect url w).1 k ≡ slot_at w k
  pub find_same :
      (z : Session) (n : Bytes) (w : W) (k : Bytes)
      → slot_at (calls.find_slot z n w).1 k ≡ slot_at w k
  pub drop_failed :
      (z : Session) (n : Bytes) (w : W) (e : Bytes)
      → (calls.drop_slot z n w).0 ≡ inl e
      → (k : Bytes) → slot_at (calls.drop_slot z n w).1 k ≡ slot_at w k
  pub drop_done :
      (z : Session) (n : Bytes) (w : W) (u : Unit {0})
      → (calls.drop_slot z n w).0 ≡ inr u
      → (k : Bytes) → slot_at (calls.drop_slot z n w).1 k ≡ (if k =? n then none else slot_at w k)
  pub create_failed :
      (z : Session) (n p : Bytes) (t : Bool) (w : W) (e : Bytes)
      → (calls.create_slot z n p t w).0 ≡ inl e
      → (k : Bytes) → slot_at (calls.create_slot z n p t w).1 k ≡ slot_at w k
  pub create_done :
      (z : Session) (n p : Bytes) (t : Bool) (w : W) (u : Unit {0})
      → (calls.create_slot z n p t w).0 ≡ inr u
      → (k : Bytes)
      → slot_at (calls.create_slot z n p t w).1 k ≡ (
          if k =? n
          then some (record { active = false; plugin = p; two_phase = t; database = database_at z })
          else slot_at w k)

module _ {W : Type 0} (calls : SlotCalls W) (L : IsCluster calls) (url : Bytes) where
  open L use {slot_at, database_at}

  -- The slot in the target's database.
  abbrev pub made : Slot → Held
  made s = record {
    active = false;
    plugin = s.plugin;
    two_phase = s.two_phase;
    database = database_at (target_session url);
  }

  -- What one rebinding does: no other slot changes, and without an error the slot is made.
  abbrev OneEnd : Slot → W → (SlotError ⊎ Unit {0}) × W → Type 0
  OneEnd slot w x =
      ((k : Bytes) → k =? slot.name ≡ false → slot_at x.1 k ≡ slot_at w k)
      × (error_of calls x.0 ≡ none → slot_at x.1 slot.name ≡ some (made slot))

  create_end :
      (slot : Slot) (w w' : W)
      → ((k : Bytes) → k =? slot.name ≡ false → slot_at w' k ≡ slot_at w k)
      → OneEnd slot w (
          wrapped creating_slot
            (calls.create_slot (target_session url) slot.name slot.plugin slot.two_phase)
            w')
  create_end slot w w' same =
      settle_act_rule (OneEnd slot w)
        (calls.create_slot (target_session url) slot.name slot.plugin slot.two_phase w') _ _
        (λ e h. ((λ k o. L.create_failed _ _ _ _ w' e h k ∙ same k o), λ bad. cc))
        (λ u h. (
          (λ k o. ground (arith, L.create_done _ _ _ _ w' u h k, same k o)),
          λ fine. ground (arith, L.create_done _ _ _ _ w' u h slot.name, =?_refl slot.name),
        ))

  rebind_one_end : (slot : Slot) (w : W) → OneEnd slot w (rebind_one calls url slot w)
  unfolding rebind_one
  rebind_one_end slot w =
      wrapped_rule (OneEnd slot w) inspecting (calls.find_slot admin_session slot.name) _ w
        (λ e h. (λ k o. L.find_same admin_session slot.name w k, λ bad. cc))
        (λ found h. dropped found _ (λ k. L.find_same admin_session slot.name w k))
    where
      dropped :
          (found : Option Bool) (w' : W)
          → ((k : Bytes) → slot_at w' k ≡ slot_at w k)
          → OneEnd slot w (
              (drop_orphan calls slot found
                  >> wrapped creating_slot
                      (calls.create_slot (target_session url) slot.name slot.plugin slot.two_phase))
                w')
      dropped none w' same = create_end slot w w' (λ k o. same k)
      dropped (some true) w' same = (λ k o. same k, λ bad. cc)
      dropped (some false) w' same =
          wrapped_rule (OneEnd slot w) dropping_slot (calls.drop_slot admin_session slot.name) _ w'
            (λ e h. (λ k o. L.drop_failed admin_session slot.name w' e h k ∙ same k, λ bad. cc))
            (λ u h.
              create_end slot w _
                (λ k o. ground (arith, L.drop_done admin_session slot.name w' u h k, same k)))

  rebind_all_elsewhere :
      (slots : List Slot) (w : W) (k : Bytes)
      → contains k (slot_names slots) ≡ false
      → slot_at (rebind_all calls url slots w).1 k ≡ slot_at w k
  unfolding rebind_all contains
  rebind_all_elsewhere [] w k h = refl
  rebind_all_elsewhere (slot ∷ rest) w k h =
      let w1 = (rebind_one calls url slot w).1 in
      rebind_all_elsewhere rest w1 k (ground arith)
      ∙ (rebind_one_end slot w).0 k (ground (arith, =?_iff k slot.name, =?_iff slot.name k))

  -- Which slots a rebinding has logged, and what it has done to the cluster.
  abbrev pub Rebound : List Slot → W → List (Slot × Option SlotError) × W → Type 0
  Rebound slots w x =
      (map (λ (r : Slot × Option SlotError). r.0) x.0 ≡ slots)
      × All (λ (r : Slot × Option SlotError). r.1 ≡ none → slot_at x.1 r.0.name ≡ some (made r.0))
          x.0
      × ((k : Bytes) → contains k (slot_names slots) ≡ false → slot_at x.1 k ≡ slot_at w k)

  rebind_all_end :
      (slots : List Slot) (w : W)
      → Distinct (slot_names slots)
      → Rebound slots w (rebind_all calls url slots w)
  unfolding rebind_all
  rebind_all_end [] w d = (refl, tt, λ k h. refl)
  rebind_all_end (slot ∷ rest) w (other, d) =
      let w1 = (rebind_one calls url slot w).1 in
      let (order, all, _) = rebind_all_end rest w1 d in
      (
        ap (λ l. slot ∷ l) order,
        (
          λ fine. rebind_all_elsewhere rest w1 slot.name other ∙ (rebind_one_end slot w).1 fine,
          all,
        ),
        λ k h. rebind_all_elsewhere (slot ∷ rest) w k h,
      )

  -- The log where the target cannot be reached.
  abbrev pub unreached : Bytes → List Slot → List (Slot × Option SlotError)
  unreached e slots = map (λ slot. (slot, some (connecting e))) slots

  -- `Rebind` behind its attempt to connect.
  abbrev pub RebindEnd :
      List Slot → W → Bytes ⊎ Unit {0} → List (Slot × Option SlotError) × W → Type 0
  RebindEnd slots w (inl e) x =
      (x.0 ≡ unreached e slots) × ((k : Bytes) → slot_at x.1 k ≡ slot_at w k)
  RebindEnd slots w (inr u) x = Rebound slots w x

  connected_end :
      (slots : List Slot) (w : W) (x : (Bytes ⊎ Unit {0}) × W)
      → Distinct (slot_names slots)
      → ((k : Bytes) → slot_at x.1 k ≡ slot_at w k)
      → RebindEnd slots w x.0 (connected calls url slots x)
  unfolding connected
  connected_end slots w (inl e, w1) d same = (refl, same)
  connected_end slots w (inr u, w1) d same =
      let (order, all, other) = rebind_all_end slots w1 d in (order, all, λ k h. other k h ∙ same k)

  -- One or more slots of distinct names. If the target cannot be reached, every slot is logged with that error and
  -- no slot of the cluster has changed. If it can, then whatever else fails every slot is tried and
  -- logged, in order; each that is logged without an error is in the target's database, with its plugin
  -- and its flag and not active; and no slot of another name has changed.
  pub rebind_end :
      (slots : List Slot) (w : W)
      → slots ≢ []
      → Distinct (slot_names slots)
      → RebindEnd slots w (calls.connect url w).0 (rebind calls url slots w)
  unfolding rebind
  rebind_end [] w h d = absurd (h refl)
  rebind_end (slot ∷ rest) w h d =
      connected_end (slot ∷ rest) w (calls.connect url w) d (L.connect_same url w)
