-- ===== src/Restore/Run/Away.antt =====
-- restore/run.go: the steps that do not touch the catalog of databases, and the phases they count.
use pg_snapshot.Base.{ℕ, zero, suc, ◌+◌, ◌≡◌, refl, sym, ◌∙◌, ap, subst, Bool, true, false}
use pg_snapshot.Base.{arith, inl, inr, ◌⊎◌, if◌then◌else◌}
use pg_snapshot.Base.Act.{Act, ◌>>=◌, give, raise, settle_act, settle_act_rule}
use pg_snapshot.Pg.Tools.{Phases, start}
use pg_snapshot.Restore.World.{
  World, Go, RunError, outside_as, from_outside, phase, admin, from_admin, administering,
}
use pg_snapshot.Restore.Database.{M, Error, Result, ok, err}

-- `n` phases more.
unfoldable pub counted : ℕ → Phases → Phases
counted zero p = p
counted (suc n) p = counted n (start p).0

pub counted-add : (n k : ℕ) (p : Phases) → counted (n + k) p ≡ counted k (counted n p)
unfolding counted
counted-add zero k p = let e : 0 + k ≡ k = omega arith in ap (λ j. counted j p) e
counted-add (suc n) k p =
    let e : suc n + k ≡ suc (n + k) = omega arith in
    ap (λ j. counted j p) e ∙ counted-add n k (start p).0

-- Whatever its result, the step leaves the catalog as it is, and if it succeeds it has counted `n`
-- phases.
pub record IsAway {C W A : Type 0} (n : ℕ) (m : Go C W A) : Type 0 where
  pub stays : (w : World C W) → (m w).1.catalog ≡ w.catalog
  pub counts : (w : World C W) (a : A) → (m w).0 ≡ inr a → (m w).1.phases ≡ counted n w.phases

module _ {C W : Type 0} where
  pub give-IsAway : {A : Type 0} (a : A) → IsAway {C = C} {W = W} 0 (give a)
  unfolding counted
  give-IsAway a = record { stays = λ w. refl; counts = λ w b h. refl }

  pub raise-IsAway : {A : Type 0} (r : RunError ⊎ A) → IsAway {C = C} {W = W} 0 (raise r)
  unfolding counted
  raise-IsAway r = record { stays = λ w. refl; counts = λ w b h. refl }

  pub bind-IsAway :
      {A B : Type 0} {n k : ℕ} {m : Go C W A} {g : A → Go C W B}
      → IsAway n m
      → ((a : A) → IsAway k (g a))
      → IsAway (n + k) (m >>= g)
  bind-IsAway {B = B} {n = n} {k = k} {m = m} {g = g} first second = record {
    stays = λ w.
        settle_act_rule (λ x. x.1.catalog ≡ w.catalog) (m w) _ g (λ e h. first.stays w)
          (λ a h. (second a).stays _ ∙ first.stays w);
    counts = λ w.
        settle_act_rule (λ x. (b : B) → x.0 ≡ inr b → x.1.phases ≡ counted (n + k) w.phases) (m w) _
          g (λ e h b no. absurd (cc (no)))
          (λ a h b is.
            (second a).counts _ b is
            ∙ (ap (counted k) (first.counts w a h) ∙ sym (counted-add n k w.phases)));
  }

  pub outside-IsAway :
      {E A : Type 0} (wrap : E → RunError) (m : Act W E A) → IsAway {C = C} 0 (outside_as wrap m)
  unfolding counted
  outside-IsAway {E = E} {A = A} wrap m = record {
    stays = λ w. catalog w (m w.outside);
    counts = λ w. phases w (m w.outside);
  }
    where
      catalog : (w : World C W) (x : (E ⊎ A) × W) → (from_outside wrap w x).1.catalog ≡ w.catalog
      catalog w (inl e, o) = refl
      catalog w (inr a, o) = refl

      phases :
          (w : World C W) (x : (E ⊎ A) × W) (a : A)
          → (from_outside wrap w x).0 ≡ inr a
          → (from_outside wrap w x).1.phases ≡ w.phases
      phases w (inl e, o) a h = refl
      phases w (inr a, o) b h = refl

  pub phase-IsAway : {A : Type 0} {n : ℕ} {m : Go C W A} → IsAway n m → IsAway (suc n) (phase m)
  unfolding counted
  phase-IsAway h = record {
    stays = λ w. h.stays (record w { phases = (start w.phases).0 });
    counts = λ w. h.counts (record w { phases = (start w.phases).0 });
  }

  pub if-IsAway :
      {A : Type 0} {n k : ℕ} {m r : Go C W A} (b : Bool)
      → IsAway n m
      → IsAway k r
      → IsAway (if b then n else k) (if b then m else r)
  if-IsAway true h g = h
  if-IsAway false h g = g

  pub either-IsAway :
      {A : Type 0} {n : ℕ} {m r : Go C W A} (b : Bool)
      → IsAway n m
      → IsAway n r
      → IsAway n (if b then m else r)
  either-IsAway true h g = h
  either-IsAway false h g = g

  pub recount : {A : Type 0} {n k : ℕ} {m : Go C W A} → IsAway n m → n ≡ k → IsAway k m
  recount {m = m} h e = subst (λ j. IsAway j m) e h

  -- To prove something of a chain that starts with a call of `Admin`.
  pub admin_rule {ℓ} :
      {A B : Type 0} (P : (RunError ⊎ B) × World C W → Type ℓ) (m : M C A) (g : A → Go C W B)
      (w : World C W)
      → ((e : Error)
          → (m w.catalog).0 ≡ err e
          → P (inl (administering e), record w { catalog = (m w.catalog).1 }))
      → ((a : A) → (m w.catalog).0 ≡ ok a → P (g a (record w { catalog = (m w.catalog).1 })))
      → P ((admin m >>= g) w)
  admin_rule {A = A} P m g w = from (m w.catalog)
    where
      from :
          (x : Result A × C)
          → ((e : Error) → x.0 ≡ err e → P (inl (administering e), record w { catalog = x.1 }))
          → ((a : A) → x.0 ≡ ok a → P (g a (record w { catalog = x.1 })))
          → P (settle_act (from_admin w x) (λ e w'. (inl e, w')) g)
      from (ok a, c) h k = k a refl
      from (err e, c) h k = h e refl

  pub admin-catalog :
      {A : Type 0} (w : World C W) (x : Result A × C) → (from_admin w x).1.catalog ≡ x.1
  admin-catalog w (ok a, c) = refl
  admin-catalog w (err e, c) = refl
