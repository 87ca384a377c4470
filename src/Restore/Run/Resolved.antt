-- ===== src/Restore/Run/Resolved.antt =====
-- restore/run.go: the snapshot and the manifest that `resolveSnapshot` gives.
use mathlib.Core.Path.{Path}
use pg_snapshot.Base.{◌≡◌, refl, sym, subst, ◌⊎◌, inl, inr, Bool, true, false, not, if◌then◌else◌}
use pg_snapshot.Base.{is_nil, Option, none, some, ◌++◌}
use pg_snapshot.Base.Int.{ℤ}
use pg_snapshot.Base.Bytes.{Bytes, codes}
use pg_snapshot.Base.Act.{Act, ◌>>=◌, give, raise, settle_act_rule}
use pg_snapshot.Blobstore.{manifest_key}
use pg_snapshot.Pg.Conn.{database_of}
use pg_snapshot.Export.Manifest.{Manifest, validate, Refusal}
use pg_snapshot.Restore.Server.{Server}
use pg_snapshot.Restore.World.{World, Work, RunError, Go, outside, from_outside, calling, refused}
use pg_snapshot.Restore.Run.{Options, resolve_snapshot, accept_manifest, accepted}
use pg_snapshot.Restore.Run.{choose_snapshot, list_newest, newest_listed, snapshot_database}

accepted_valid : (m : Manifest) (major : ℤ) → accepted m major ≡ inr tt → validate m major ≡ none
unfolding accepted
accepted_valid m major = from (validate m major)
  where
    from :
        (v : Option Refusal)
        → elim v as (λ _. RunError ⊎ Unit {0}) [ none ↦ inr tt | some r ↦ inl (refused r) ] ≡ inr tt
        → v ≡ none
    from none h = refl
    from (some r) h = cc

pub inr_injective : {E A : Type 0} (a b : A) → Path (E ⊎ A) (inr a) (inr b) → a ≡ b
inr_injective a b h = cc

module _ {C W A B : Type 0} {Q : Type 0} where
  -- A result behind a first step.
  pub result_rule :
      (m : Go C W A) (g : A → Go C W B) (w : World C W) (b : B)
      → ((a : A) → (m w).0 ≡ inr a → (g a (m w).1).0 ≡ inr b → Q)
      → ((m >>= g) w).0 ≡ inr b
      → Q
  result_rule m g w b next =
      settle_act_rule (λ x. x.0 ≡ inr b → Q) (m w) _ g (λ e h bad. absurd (cc bad)) next

  -- A result behind a call of the outside.
  pub outside_rule :
      (m : Act W Bytes A) (g : A → Go C W B) (w : World C W) (b : B)
      → ((a : A)
          → (m w.outside).0 ≡ inr a
          → (g a (record w { outside = (m w.outside).1 })).0 ≡ inr b
          → Q)
      → ((outside m >>= g) w).0 ≡ inr b
      → Q
  outside_rule m g w b = from (m w.outside)
    where
      from :
          (x : (Bytes ⊎ A) × W)
          → ((a : A) → x.0 ≡ inr a → (g a (record w { outside = x.1 })).0 ≡ inr b → Q)
          → (((λ (v : World C W). from_outside calling w x) >>= g) w).0 ≡ inr b
          → Q
      from (inl e, v) next bad = absurd (cc bad)
      from (inr a, v) next h = next a refl h

-- What a snapshot and its manifest come from, where the outside is `start` at the beginning: the
-- snapshot is the pinned one, or else the newest of the listing; the manifest is the one that is then
-- read at the snapshot's key; and `Validate` accepts it for the major version that the server then
-- answers.
pub record IsResolved {W Body : Type 0} (K : Work W Body) (o : Options) (start : W) (m : Manifest)
    (snapshot : Bytes) : Type 0 where
  pub url_database : Bytes
  pub named : database_of K.parse_url o.admin_url ≡ inr url_database
  pub chosen : W
  pub pinned : is_nil o.snapshot ≡ false → (snapshot ≡ o.snapshot) × (chosen ≡ start)
  pub newest :
      is_nil o.snapshot ≡ true
      → let database = snapshot_database o url_database in
        let listing = K.list_prefixes (database ++ codes "/") start in
        (newest_listed database listing.0 ≡ inr snapshot) × (chosen ≡ listing.1)
  pub manifest_read :
      let key =
        manifest_key
          (record { database = snapshot_database o url_database; timestamp = snapshot }) in
      (K.read_manifest key chosen).0 ≡ inr m
  pub major : ℤ
  pub major_read :
      let key =
        manifest_key
          (record { database = snapshot_database o url_database; timestamp = snapshot }) in
      (K.server_major (K.read_manifest key chosen).1).0 ≡ inr major
  pub valid : validate m major ≡ none

module _ (S : Server) {W Body : Type 0} (K : Work W Body) (o : Options) where
  open S use {Catalog}

  -- What a choice of a snapshot rests on.
  abbrev Choice : Bytes → W → Bytes → W → Type 0
  Choice database start snapshot later =
      (is_nil o.snapshot ≡ false → (snapshot ≡ o.snapshot) × (later ≡ start))
      × (is_nil o.snapshot ≡ true
          → let listing = K.list_prefixes (database ++ codes "/") start in
            (newest_listed database listing.0 ≡ inr snapshot) × (later ≡ listing.1))

  choose_snapshot_end :
      (database : Bytes) (w : World Catalog W) (snapshot : Bytes)
      → (choose_snapshot S K o database w).0 ≡ inr snapshot
      → Choice database w.outside snapshot (choose_snapshot S K o database w).1.outside
  unfolding choose_snapshot list_newest
  choose_snapshot_end database w snapshot = from (is_nil o.snapshot) refl
    where
      from :
          (b : Bool)
          → is_nil o.snapshot ≡ b
          → let x = (if not b then give o.snapshot else list_newest S K database) w in
            x.0 ≡ inr snapshot → Choice database w.outside snapshot x.1.outside
      from true is h = (λ k. absurd (cc (is, k)), λ k. (h, refl))
      from false is h =
          (λ k. (sym (inr_injective o.snapshot snapshot h), refl), λ k. absurd (cc (is, k)))

  accept_manifest_end :
      (m : Manifest) (w : World Catalog W)
      → (accept_manifest S K m w).0 ≡ inr tt
      → (major : ℤ) × ((K.server_major w.outside).0 ≡ inr major) × (validate m major ≡ none)
  unfolding accept_manifest
  accept_manifest_end m w =
      outside_rule K.server_major _ w tt (λ major is h. (major, is, accepted_valid m major h))

  pub resolve_snapshot_end :
      (w : World Catalog W) (r : Manifest × Bytes)
      → (resolve_snapshot S K o w).0 ≡ inr r
      → IsResolved K o w.outside r.0 r.1
  unfolding resolve_snapshot
  resolve_snapshot_end w r =
      outside_rule (raise (database_of K.parse_url o.admin_url)) _ w r (λ url_database named.
        result_rule (choose_snapshot S K o (snapshot_database o url_database)) _ w r (λ snapshot is.
          let choice = choose_snapshot_end (snapshot_database o url_database) w snapshot is in
          outside_rule
            (K.read_manifest (
              manifest_key
                (record { database = snapshot_database o url_database; timestamp = snapshot })))
            _ _ r
            (λ m read. result_rule (accept_manifest S K m) _ _ r (λ u accepts last.
              let (major, told, valid) = accept_manifest_end m _ accepts in
              subst (λ (x : Manifest × Bytes). IsResolved K o w.outside x.0 x.1)
                (inr_injective (m, snapshot) r last)
                (record {
                  url_database = url_database;
                  named = named;
                  chosen = _;
                  pinned = choice.0;
                  newest = choice.1;
                  manifest_read = read;
                  major = major;
                  major_read = told;
                  valid = valid;
                })))))
