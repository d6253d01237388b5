-- ===== src/Base/Inversion.antt =====
-- What a call that succeeds says of its parts.
use mathlib.Core.Path.{◌≡◌, refl}
use go_image_service.Base.Fallible.{Result, ok, err, M, ◌>>=◌, catch, fail, pure, annotate, wrapped}
use Prim.Native.String.{String}

module _ {W A B : Type 0} (m : M W A) (f : A → M W B) (w : W) where
  -- The value and the world between the two parts.
  pub record IsBound (b : B) (w'' : W) : Type 0 where
    pub value : A
    pub world : W
    pub first : m w ≡ (ok value, world)
    pub second : f value world ≡ (ok b, w'')

  catch-IsBound :
      (r : Result A × W) {b : B} {w'' : W} → m w ≡ r → catch r f fail ≡ (ok b, w'') → IsBound b w''
  catch-IsBound (ok a, w') e h = record { value = a; world = w'; first = e; second = h }
  catch-IsBound (err x, w') e h = cc

  pub bind-IsBound : {b : B} {w'' : W} → (m >>= f) w ≡ (ok b, w'') → IsBound b w''
  bind-IsBound h = catch-IsBound (m w) refl h

annotate-go :
    {W A : Type 0} (note : String) (r : Result A × W) {a : A} {w' : W}
    → catch r pure (λ e. fail (wrapped note e)) ≡ (ok a, w')
    → r ≡ (ok a, w')
annotate-go note (ok _, _) h = h
annotate-go note (err _, _) h = cc

-- An annotation keeps a success as it is.
pub annotate-eq-ok :
    {W A : Type 0} (note : String) (m : M W A) (w : W) {a : A} {w' : W}
    → annotate note m w ≡ (ok a, w')
    → m w ≡ (ok a, w')
annotate-eq-ok note m w h = annotate-go note (m w) h

-- A call whose result is passed on as it is.
pub catch-pure : {W A : Type 0} (r : Result A × W) → catch {X = Result A × W} r pure fail ≡ r
catch-pure (ok _, _) = refl
catch-pure (err _, _) = refl
