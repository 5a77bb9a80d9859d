-- ===== src/Method.antt =====
-- The way of Go's methods to return early with an error, and what is said of how they end.
pub mod Keeps
use mathlib.Core.Path.{subst₂}
use barrel.Prelude.{Bool, true, false, ◌≡◌, refl, sym, ap}
use barrel.Types.{Result, ok, err, Error}

-- A method: it returns a value or an error, and the state comes back either way.
abbrev pub M : Type 0 → Type 0 → Type 0
M W A = W → Result A × W

module _ {W A : Type 0} where
  infixl 5 ◌>>=◌ ◌>>◌
  abbrev pub ◌>>=◌ : {B : Type 0} → M W A → (A → M W B) → M W B
  ◌>>=◌ m f w = let (r, w') = m w in elim r [ ok a ↦ f a w' | err e ↦ (err e, w') ]

  abbrev pub ◌>>◌ : M W (Unit {0}) → M W A → M W A
  ◌>>◌ m k w = let (r, w') = m w in elim r [ ok _ ↦ k w' | err e ↦ (err e, w') ]

  abbrev pub pure : A → M W A
  pure a w = (ok a, w)

  abbrev pub fail : Error → M W A
  fail e w = (err e, w)

  -- `if err := m; err != nil { ... }`, where the code looks at the error.
  abbrev pub catch : {B : Type 0} → M W A → (A → M W B) → (Error → M W B) → M W B
  catch m f g w = let (r, w') = m w in elim r [ ok a ↦ f a w' | err e ↦ g e w' ]

  -- `if err := m; err != nil { logger.Error(...) }`
  abbrev pub log_error : M W A → M W (Unit {0})
  log_error m w = let (r, w') = m w in (ok tt, w')

module _ {W A : Type 0} where
  -- `defer func() { if err != nil { ... } }()`, where the deferred call's own error is logged.
  abbrev pub on_error : M W A → M W (Unit {0}) → M W A
  on_error m undo = catch m pure (λ e. log_error undo >> fail e)

  -- `defer func() { ... }()`, where the deferred call's own error is logged.
  abbrev pub finally : M W A → M W (Unit {0}) → M W A
  finally m last w = let (r, w') = m w in (r, (last w').1)

abbrev pub fail_if : {W : Type 0} → Bool → Error → M W (Unit {0})
fail_if true e w = (err e, w)
fail_if false e w = (ok tt, w)

-- How a call may end: what holds of its value, and what of its error.
pub data Ends {W A : Type 0} (Q : A → W → Type 0) (E : Error → W → Type 0)
    : Result A × W → Type 0 where
  returns : {a : A} {w : W} → Q a w → Ends Q E (ok a, w)
  fails : {e : Error} {w : W} → E e w → Ends Q E (err e, w)

module _ {W A B : Type 0} {Q : A → W → Type 0} {E : Error → W → Type 0} {R : B → W → Type 0}
    {F : Error → W → Type 0} where
  bind_result :
      (f : A → M W B) (g : Error → M W B) {r : Result A × W}
      → Ends Q E r
      → ((a : A) (w' : W) → Q a w' → Ends R F (f a w'))
      → ((e : Error) (w' : W) → E e w' → Ends R F (g e w'))
      → Ends R F (catch (λ _. r) f g r.1)
  bind_result f g (returns {a} {w} q) h d = h a w q
  bind_result f g (fails {e} {w} q) h d = d e w q

  -- The rule for a chain of two calls.
  pub >>=-Ends :
      (m : M W A) (f : A → M W B) (w : W)
      → Ends Q E (m w)
      → ((a : A) (w' : W) → Q a w' → Ends R F (f a w'))
      → ((e : Error) (w' : W) → E e w' → F e w')
      → Ends R F ((m >>= f) w)
  >>=-Ends m f w h k d = bind_result f (λ e w'. (err e, w')) h k (λ e w' q. fails (d e w' q))

  -- The rule where the error is looked at.
  pub catch-Ends :
      (m : M W A) (f : A → M W B) (g : Error → M W B) (w : W)
      → Ends Q E (m w)
      → ((a : A) (w' : W) → Q a w' → Ends R F (f a w'))
      → ((e : Error) (w' : W) → E e w' → Ends R F (g e w'))
      → Ends R F (catch m f g w)
  catch-Ends m f g w h k d = bind_result f g h k d

module _ {W B : Type 0} {Q : Unit {0} → W → Type 0} {E : Error → W → Type 0} {R : B → W → Type 0}
    {F : Error → W → Type 0} where
  chained :
      (k : M W B) {r : Result (Unit {0}) × W}
      → Ends Q E r
      → ((w' : W) → Q tt w' → Ends R F (k w'))
      → ((e : Error) (w' : W) → E e w' → F e w')
      → Ends R F (((λ _. r) >> k) r.1)
  chained k (returns {a} {w} q) f d = f w q
  chained k (fails {e} {w} q) f d = fails (d e w q)

  -- The rule for a chain of two calls, the first without a value.
  pub >>-Ends :
      (m : M W (Unit {0})) (k : M W B) (w : W)
      → Ends Q E (m w)
      → ((w' : W) → Q tt w' → Ends R F (k w'))
      → ((e : Error) (w' : W) → E e w' → F e w')
      → Ends R F ((m >> k) w)
  >>-Ends m k w h f d = chained k h f d

-- An outcome says less.
pub Ends-mono :
    {W A : Type 0} {Q Q' : A → W → Type 0} {E E' : Error → W → Type 0} {r : Result A × W}
    → Ends Q E r
    → ((a : A) (w : W) → Q a w → Q' a w)
    → ((e : Error) (w : W) → E e w → E' e w)
    → Ends Q' E' r
Ends-mono (returns {a} {w} q) f g = returns (f a w q)
Ends-mono (fails {e} {w} q) f g = fails (g e w q)

-- What is known of the state in any case holds of both outcomes.
pub Ends-and :
    {W A : Type 0} {Q : A → W → Type 0} {E : Error → W → Type 0} {r : Result A × W} (P : W → Type 0)
    → Ends Q E r
    → P r.1
    → Ends (λ a w. Q a w × P w) (λ e w. E e w × P w) r
Ends-and P (returns q) p = returns (q, p)
Ends-and P (fails q) p = fails (q, p)

-- The outcome of a call is the call's own.
pub Ends-own :
    {W A : Type 0} {Q : A → W → Type 0} {E : Error → W → Type 0} {r : Result A × W}
    → Ends Q E r
    → Ends (λ a w. Q a w × (r ≡ (ok a, w))) (λ e w. E e w × (r ≡ (err e, w))) r
Ends-own (returns q) = returns (q, refl)
Ends-own (fails q) = fails (q, refl)

ok_injective : {A : Type 0} {a b : A} → ok a ≡ ok b → a ≡ b
ok_injective e = cc

err_injective : {A : Type 0} {d e : Error} → (let r : Result A = err d in r) ≡ err e → d ≡ e
err_injective p = cc

err_not_ok : {A : Type 0} {a : A} {e : Error} → err e ≡ ok a → ⊥
err_not_ok p = cc

-- The outcome of a call, read from its result.
pub Ends_returned :
    {W A : Type 0} {Q : A → W → Type 0} {E : Error → W → Type 0} {r : Result A × W}
    → Ends Q E r
    → (a : A) (w : W) → r ≡ (ok a, w)
    → Q a w
Ends_returned {Q} (returns {a = b} {w = u} q) a w e =
    subst₂ Q (ok_injective (ap (λ p. p.0) e)) (ap (λ p. p.1) e) q
Ends_returned (fails q) a w e = absurd (err_not_ok (ap (λ p. p.0) e))

pub Ends_failed :
    {W A : Type 0} {Q : A → W → Type 0} {E : Error → W → Type 0} {r : Result A × W}
    → Ends Q E r
    → (d : Error) (w : W) → r ≡ (err d, w)
    → E d w
Ends_failed {E} (fails {e = c} {w = u} q) d w e =
    subst₂ E (err_injective (ap (λ p. p.0) e)) (ap (λ p. p.1) e) q
Ends_failed (returns q) d w e = absurd (err_not_ok (sym (ap (λ p. p.0) e)))

-- Two things that are known of one outcome.
pub Ends-both :
    {W A : Type 0} {Q Q' : A → W → Type 0} {E E' : Error → W → Type 0} {r : Result A × W}
    → Ends Q E r
    → Ends Q' E' r
    → Ends (λ a w. Q a w × Q' a w) (λ e w. E e w × E' e w) r
Ends-both {Q'} {E'} (returns {a} {w} q) h = returns (q, Ends_returned {Q = Q'} {E = E'} h a w refl)
Ends-both {Q'} {E'} (fails {e} {w} q) h = fails (q, Ends_failed {Q = Q'} {E = E'} h e w refl)
