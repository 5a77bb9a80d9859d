-- ===== src/Method/Keeps.antt =====
-- Methods that leave a part of the state alone, however they end.
use barrel.Prelude.{Bool, true, false}
use barrel.Types.{Result, ok, err, Error}
use barrel.Method.{
  M, Ends, returns, fails, >>=-Ends, >>-Ends, Ends-mono, pure, fail, fail_if, ◌>>=◌, ◌>>◌,
}

module _ {W : Type 0} (R : W → W → Type 0) where
  abbrev pub Keeps : {A : Type 0} → M W A → Type 0
  Keeps m = (w : W) → Ends (λ _ u. R w u) (λ _ u. R w u) (m w)

  module _ (r_refl : (w : W) → R w w) where
    pub Keeps-pure : {A : Type 0} (a : A) → Keeps (pure a)
    Keeps-pure a w = returns (r_refl w)

    pub Keeps-fail : {A : Type 0} (e : Error) → Keeps {A = A} (fail e)
    Keeps-fail e w = fails (r_refl w)

    pub Keeps-fail_if : (b : Bool) (e : Error) → Keeps (fail_if b e)
    Keeps-fail_if true e w = fails (r_refl w)
    Keeps-fail_if false e w = returns (r_refl w)

    pub Keeps-result : {A : Type 0} (r : Result A) → Keeps (λ w. (r, w))
    Keeps-result (ok a) w = returns (r_refl w)
    Keeps-result (err e) w = fails (r_refl w)

  module _ (r_trans : (u v w : W) → R u v → R v w → R u w) where
    pub Keeps->>= :
        {A B : Type 0} (m : M W A) (f : A → M W B)
        → Keeps m
        → ((a : A) → Keeps (f a))
        → Keeps (m >>= f)
    Keeps->>= m f h k w =
        >>=-Ends m f w (h w)
          (λ a u q. Ends-mono (k a u) (λ b v p. r_trans w u v q p) (λ e v p. r_trans w u v q p))
          (λ e u q. q)

    pub Keeps->> :
        {B : Type 0} (m : M W (Unit {0})) (k : M W B) → Keeps m → Keeps k → Keeps (m >> k)
    Keeps->> m k h g w =
        >>-Ends m k w (h w)
          (λ u q. Ends-mono (g u) (λ b v p. r_trans w u v q p) (λ e v p. r_trans w u v q p))
          (λ e u q. q)
