-- ===== src/Utils/Lazy.antt =====
-- `cachedGetter` and `lazyGetter` of utils/lazy.go, over a getter that acts on a state.
use barrel.Prelude.{ℕ, zero, suc, Bool, false, Option, none, ◌≡◌, refl, if◌then◌else◌}
use barrel.Types.{Error}

-- The pair that a getter returns; `none` is nil.
abbrev pub Answer : Type 0 → Type 0
Answer A = Option A × Option Error

pub record CachedGetter (A : Type 0) : Type 0 where
  pub has_cached : Bool
  pub answer : Answer A

-- `NewCachedGetter`, and the inside of `NewLazyGetter`.
abbrev pub new_getter : {A : Type 0} → CachedGetter A
new_getter = record { has_cached = false; answer = (none, none) }

module _ {A S : Type 0} (getter : S → Answer A × S) where
  -- `cachedGetter.Get`
  pub cached_get : CachedGetter A → S → Answer A × (CachedGetter A × S)
  cached_get c s =
      if c.has_cached
      then (c.answer, (c, s))
      else (let (a, s') = getter s in (a, (record c { answer = a }, s')))

  -- `lazyGetter.Get`, less its lock: calls from several goroutines come one after the other.
  pub lazy_get : CachedGetter A → S → Answer A × (CachedGetter A × S)
  unfolding cached_get
  lazy_get c s = if c.has_cached then cached_get c s else cached_get c s

  -- So many calls of `Get`.
  pub gets : ℕ → CachedGetter A → S → CachedGetter A × S
  unfolding lazy_get
  gets zero c s = (c, s)
  gets (suc n) c s = let (_, (c', s')) = lazy_get c s in gets n c' s'

  -- So many calls of the getter itself.
  abbrev pub asked : ℕ → S → S
  asked zero s = s
  asked (suc n) s = asked n (getter s).1

  uncached :
      (n : ℕ) (a : Answer A) (s : S)
      → (gets n (record { has_cached = false; answer = a }) s).1 ≡ asked n s
  unfolding gets lazy_get cached_get
  uncached zero a s = refl
  uncached (suc n) a s = uncached n (getter s).0 (getter s).1

  -- From a new getter, any number of calls of `Get` calls the getter inside just as often.
  pub gets-asked : (n : ℕ) (s : S) → (gets n new_getter s).1 ≡ asked n s
  gets-asked n s = uncached n (none, none) s
