-- ===== src/Base/Keeps.antt =====
-- A property of the world that a call keeps, whether it succeeds or fails.
use Prim.Native.String.{String}
use mathlib.Core.Path.{◌≡◌, refl}
use go_image_service.Base.Fallible.{
  Result, ok, err, Err, M, ◌>>=◌, catch, fail, pure, annotate, wrapped,
}

pub record Keeps {W A : Type 0} (P : W → Type 0) (m : M W A) : Type 0 where
  pub at : (w : W) → P w → P (m w).1

pub bind-go :
    {W A B : Type 0} (P : W → Type 0) (f : A → M W B)
    → ((x : A) → Keeps P (f x))
    → (r : Result A × W) → P r.1
    → P (catch r f fail).1
bind-go P f next (ok x, w) h = (next x).at w h
bind-go P f next (err _, w) h = h

pub bind-Keeps :
    {W A B : Type 0} {P : W → Type 0} {m : M W A} {f : A → M W B}
    → Keeps P m
    → ((x : A) → Keeps P (f x))
    → Keeps P (m >>= f)
bind-Keeps {P} {m} {f} first next = record { at = λ w h. bind-go P f next (m w) (first.at w h) }

annotate-go :
    {W A : Type 0} (P : W → Type 0) (note : String) (r : Result A × W)
    → P r.1
    → P (catch {X = Result A × W} r pure (λ e. fail (wrapped note e))).1
annotate-go P note (ok a, w) h = h
annotate-go P note (err e, w) h = h

pub annotate-Keeps :
    {W A : Type 0} {P : W → Type 0} {m : M W A} (note : String)
    → Keeps P m
    → Keeps P (annotate note m)
annotate-Keeps {P} {m} note k = record { at = λ w h. annotate-go P note (m w) (k.at w h) }

pub pure-Keeps : {W A : Type 0} {P : W → Type 0} (a : A) → Keeps P (pure {W = W} a)
pure-Keeps a = record { at = λ w h. h }

module _ {W A : Type 0} {P : W → Type 0} (G : Type 0) where
  ended-go :
      (m : M W A) (w : W) (r : Result A × W)
      → m w ≡ r
      → P r.1
      → ((a : A) (v : W) → m w ≡ (ok a, v) → P v → G)
      → ((e : Err) (v : W) → m w ≡ (err e, v) → P v → G)
      → G
  ended-go m w (ok a, v) e h good bad = good a v e h
  ended-go m w (err x, v) e h good bad = bad x v e h

  -- The two ends of a call that keeps the property.
  pub ended :
      {m : M W A}
      → Keeps P m
      → (w : W) → P w
      → ((a : A) (v : W) → m w ≡ (ok a, v) → P v → G)
      → ((e : Err) (v : W) → m w ≡ (err e, v) → P v → G)
      → G
  ended {m} k w h good bad = ended-go m w (m w) refl (k.at w h) good bad
