-- ===== src/Base/Act.antt =====
-- Go code that may fail and acts on a state: a function from the state to an error or a result, and
-- the state after it. `e ⊎ a` is the pair of a Go result and an error of which one is nil.
use mathlib.Core.Path.{◌≡◌, refl}
use mathlib.Core.Logic.{◌⊎◌, inl, inr}

abbrev pub Act : Type 0 → Type 0 → Type 0 → Type 0
Act S E A = S → (E ⊎ A) × S

-- The two continuations of `if err != nil`.
abbrev pub settle_act :
    {S E F A B : Type 0} → (E ⊎ A) × S → (E → Act S F B) → (A → Act S F B) → (F ⊎ B) × S
settle_act (inl e, s) f g = f e s
settle_act (inr a, s) f g = g a s

infixl 5 ◌>>=◌ ◌>>◌
abbrev pub ◌>>=◌ : {S E A B : Type 0} → Act S E A → (A → Act S E B) → Act S E B
◌>>=◌ m g s = settle_act (m s) (λ e s'. (inl e, s')) g

abbrev pub ◌>>◌ : {S E A B : Type 0} → Act S E A → Act S E B → Act S E B
◌>>◌ m k = m >>= λ _. k

abbrev pub give : {S E A : Type 0} → A → Act S E A
give a s = (inr a, s)

abbrev pub throw : {S E A : Type 0} → E → Act S E A
throw e s = (inl e, s)

-- An error or a result that is there already.
abbrev pub raise : {S E A : Type 0} → E ⊎ A → Act S E A
raise r s = (r, s)

-- To prove something of both branches, prove it of each with the result that leads there.
pub settle_act_rule {ℓ} :
    {S E F A B : Type 0} (P : (F ⊎ B) × S → Type ℓ) (r : (E ⊎ A) × S) (f : E → Act S F B)
    (g : A → Act S F B)
    → ((e : E) → r.0 ≡ inl e → P (f e r.1))
    → ((a : A) → r.0 ≡ inr a → P (g a r.1))
    → P (settle_act r f g)
settle_act_rule P (inl e, s) f g h k = h e refl
settle_act_rule P (inr a, s) f g h k = k a refl

-- A result behind two steps comes from a result of the first.
pub bind-inr :
    {S E A B : Type 0} (m : Act S E A) (g : A → Act S E B) (s : S) (b : B)
    → ((m >>= g) s).0 ≡ inr b
    → (a : A) × ((m s).0 ≡ inr a) × ((m >>= g) s ≡ g a (m s).1)
bind-inr {S = S} {E = E} {A = A} m g s b = from (m s)
  where
    from :
        (r : (E ⊎ A) × S)
        → (settle_act r (λ e s'. (inl e, s')) g).0 ≡ inr b
        → (a : A) × (r.0 ≡ inr a) × (settle_act r (λ e s'. (inl e, s')) g ≡ g a r.1)
    from (inl e, s') h = cc
    from (inr a, s') h = (a, refl, refl)

-- `fmt.Errorf("…: %w", err)` around the error of a step.
abbrev pub wrapped : {S E F A : Type 0} → (E → F) → Act S E A → Act S F A
wrapped wrap m s = settle_act (m s) (λ e s'. (inl (wrap e), s')) give

-- A deferred call, whose own error is not looked at.
abbrev pub defer : {S E A : Type 0} → (S → S) → Act S E A → Act S E A
defer f m s = ((m s).0, f (m s).1)

-- To prove something of a chain that starts with a wrapped step.
pub wrapped_rule {ℓ} :
    {S E F A B : Type 0} (P : (F ⊎ B) × S → Type ℓ) (wrap : E → F) (m : Act S E A)
    (g : A → Act S F B) (s : S)
    → ((e : E) → (m s).0 ≡ inl e → P (inl (wrap e), (m s).1))
    → ((a : A) → (m s).0 ≡ inr a → P (g a (m s).1))
    → P ((wrapped wrap m >>= g) s)
wrapped_rule {S = S} {E = E} {A = A} P wrap m g s = from (m s)
  where
    from :
        (r : (E ⊎ A) × S)
        → ((e : E) → r.0 ≡ inl e → P (inl (wrap e), r.1))
        → ((a : A) → r.0 ≡ inr a → P (g a r.1))
        → P (settle_act (settle_act r (λ e s'. (inl (wrap e), s')) give) (λ e s'. (inl e, s')) g)
    from (inl e, s') h k = h e refl
    from (inr a, s') h k = k a refl
