-- ===== src/Restore/Run/End.antt =====
-- restore/run.go: where the databases stand when the steps behind the creation of the staging database
-- end, however they fail.
use pg_snapshot.Base.{ℕ, ◌≡◌, ◌∙◌, ap, ◌≢◌, ◌⊎◌, inl, inr, Bool, true, false, List, Option}
use pg_snapshot.Base.{none, some, is_some, subst, sym, if◌then◌else◌}
use pg_snapshot.Base.Bytes.{Bytes}
use pg_snapshot.Base.Act.{◌>>=◌, ◌>>◌, give, settle_act_rule, settle_act, defer}
use pg_snapshot.Pg.Tools.{start}
use pg_snapshot.Export.Manifest.{Manifest, total_rows}
use pg_snapshot.Restore.Server.{Server, IsLawful, Entry}
use pg_snapshot.Restore.Database.{Error, stranded, swap}
use pg_snapshot.Restore.Database.Ends.{oid_of, Names, Untouched, MidSwap, Swapped}
use pg_snapshot.Restore.Database.Swap.{SwapEnd, swap_end}
use pg_snapshot.Restore.Slots.{Slot}
use pg_snapshot.Restore.World.{World, Work, RunError, phase, administering, from_admin}
use pg_snapshot.Restore.Run.{Options, RunResult, Do}
use pg_snapshot.Restore.Run.Body.{
  fill_and_swap, swap_phase, rebind_phase, swapped, restore_into, remove_dir,
}
use pg_snapshot.Restore.Run.Away.{IsAway}
use pg_snapshot.Restore.Run.Fill.{fill-IsAway, prepare-IsAway}

-- How a run with an existing staging database may leave the databases, by what it returns.
abbrev pub StagedEnd : Bytes → Bytes → Names → RunError ⊎ RunResult → Names → Type 0
StagedEnd target staging old (inr r) new =
    Swapped target staging r.backup old new
    × ((e : Entry) × (new target ≡ some e) × (e.accepts ≡ true))
StagedEnd target staging old (inl e) new =
    Untouched old new
    ⊎ (((b : Bytes) × (cause : Error) × (e ≡ administering (stranded b target cause))
          × MidSwap target b old new)
        ⊎ ((b : Bytes) × Swapped target staging b old new))

module _ (S : Server) (L : IsLawful S) {W Body : Type 0} (K : Work W Body) (o : Options)
    (staging : Bytes) (old : S.Catalog) (apart : o.target ≢ staging)
    (alive : is_some (S.entry old staging) ≡ true) where
  open S use {Catalog, entry}

  -- The end of a step, seen from the catalog `old`.
  abbrev pub Ends : (RunError ⊎ RunResult) × World Catalog W → Type 0
  Ends x = StagedEnd o.target staging (entry old) x.0 (entry x.1.catalog)

  -- A step that leaves the catalog alone, and then one that ends well from the same catalog.
  pub away-Ends :
      {A : Type 0} {n : ℕ} {m : Do S K A} (g : A → Do S K RunResult) (w : World Catalog W)
      → w.catalog ≡ old
      → IsAway n m
      → ((a : A) (w' : World Catalog W) → w'.catalog ≡ old → Ends (g a w'))
      → Ends ((m >>= g) w)
  away-Ends {m = m} g w e away later =
      settle_act_rule Ends (m w) _ g
        (λ x h. inl (λ n. ap (λ c. oid_of (entry c n)) (away.stays w ∙ e)))
        (λ a h. later a _ (away.stays w ∙ e))

  -- The steps of `fill_and_swap` behind the swap.
  abbrev finish : Bool → List Slot → Bytes → Manifest → Bytes → Bytes → Do S K RunResult
  finish again slots target_url m snapshot backup =
      (if again then phase (rebind_phase S K target_url slots) else give tt)
      >> give
          (record { snapshot = snapshot; staging = staging; backup = backup; rows = total_rows m })

  swapped_end :
      (again : Bool) (slots : List Slot) (target_url : Bytes) (m : Manifest) (snapshot : Bytes)
      (w : World Catalog W) (x : (Bytes × Option Error) × Catalog)
      → SwapEnd o.target staging (entry old) (entry x.1) x.0.0 x.0.1
      → Ends (
          settle_act
            (from_admin w (swapped S K x))
            (λ e w'. (inl e, w'))
            (finish again slots target_url m snapshot))
  unfolding rebind_phase
  swapped_end true slots target_url m snapshot w ((b, none), c) h = h
  swapped_end false slots target_url m snapshot w ((b, none), c) h = h
  swapped_end again slots target_url m snapshot w ((b, some e), c) (inl (nil, u)) = inl u
  swapped_end again slots target_url m snapshot w ((b, some e), c)
        (inr (inl (b', cause, is, nil, mid))) =
      inr (inl (b', cause, ap administering is, mid))
  swapped_end again slots target_url m snapshot w ((b, some e), c) (inr (inr sw)) =
      inr (inr (b, sw))

  pub fill_and_swap-Ends :
      (m : Manifest) (snapshot url target_url path : Bytes) (w : World Catalog W)
      → w.catalog ≡ old
      → Ends (fill_and_swap S K o m snapshot staging url target_url path w)
  unfolding fill_and_swap swap_phase
  fill_and_swap-Ends m snapshot url target_url path w e =
      away-Ends
        (λ slots.
          phase (swap_phase S K o staging) >>= finish o.replication slots target_url m snapshot)
        w e (fill-IsAway S K o m staging url target_url path) (λ slots w' e'. from slots w' e')
    where
      from :
          (slots : List Slot) (w : World Catalog W)
          → w.catalog ≡ old
          → Ends (
              (phase (swap_phase S K o staging)
                  >>= finish o.replication slots target_url m snapshot)
                w)
      from slots w e =
          let now = (K.stamp w.outside).0 in
          swapped_end o.replication slots target_url m snapshot
            (record w { phases = (start w.phases).0; outside = (K.stamp w.outside).1 })
            (swap S o.target staging now w.catalog)
            (subst
              (λ c.
                SwapEnd o.target staging (entry old) (entry (swap S o.target staging now c).1)
                  (swap S o.target staging now c).0.0 (swap S o.target staging now c).0.1)
              (sym e) (swap_end S L o.target staging now old apart alive))

  pub restore_into-Ends :
      (m : Manifest) (snapshot : Bytes) (w : World Catalog W)
      → w.catalog ≡ old
      → Ends (restore_into S K o m snapshot staging w)
  unfolding restore_into
  restore_into-Ends m snapshot w e =
      away-Ends
        (λ p. defer (remove_dir S K p.2) (fill_and_swap S K o m snapshot staging p.0 p.1 p.3)) w e
        (prepare-IsAway S K o m snapshot staging)
        (λ p w' e'. fill_and_swap-Ends m snapshot p.0 p.1 p.3 w' e')
