-- ===== src/Base/Hoare.antt =====
-- Triples for calls: from a world in `P` a success ends in `Q`, and a failure in `E`.
use go_image_service.Base.Fallible.{Result, ok, err, M, ◌>>=◌, catch, fail}

module _ {W : Type 0} (Q E : W → Type 0) where
  abbrev pub Landed : {A : Type 0} → Result A → W → Type 0
  Landed (ok _) w = Q w
  Landed (err _) w = E w

pub record Hoare {W A : Type 0} (P : W → Type 0) (m : M W A) (Q E : W → Type 0) : Type 0 where
  pub at : (w : W) → P w → Landed Q E (m w).0 (m w).1

-- Wherever the result is not looked at.
pub Landed-either :
    {W A : Type 0} (Q E R : W → Type 0)
    → ((w : W) → Q w → R w)
    → ((w : W) → E w → R w)
    → (r : Result A) (w : W) → Landed Q E r w
    → R w
Landed-either Q E R q e (ok _) w h = q w h
Landed-either Q E R q e (err _) w h = e w h

module _ {W A B : Type 0} (f : A → M W B) (S Q E : W → Type 0)
    (next : (a : A) → Hoare S (f a) Q E) where
  bind-go :
      (r : Result A × W) → Landed S E r.0 r.1 → Landed Q E (catch r f fail).0 (catch r f fail).1
  bind-go (ok a, w) h = (next a).at w h
  bind-go (err _, w) h = h

-- One call after another.
pub Hoare-bind :
    {W A B : Type 0} {P S Q E : W → Type 0} {m : M W A} {f : A → M W B}
    → Hoare P m S E
    → ((a : A) → Hoare S (f a) Q E)
    → Hoare P (m >>= f) Q E
Hoare-bind {S} {Q} {E} {m} {f} first next = record {
  at = λ w h. bind-go f S Q E next (m w) (first.at w h);
}

-- What holds of the world after a call, if its result is dropped.
pub Hoare-either :
    {W A : Type 0} {P Q E : W → Type 0} {m : M W A} (R : W → Type 0)
    → Hoare P m Q E
    → ((w : W) → Q w → R w)
    → ((w : W) → E w → R w)
    → (w : W) → P w
    → R (m w).1
Hoare-either {Q} {E} {m} R h q e w p = Landed-either Q E R q e (m w).0 (m w).1 (h.at w p)

weaken-go :
    {W A : Type 0} (Q E E' : W → Type 0)
    → ((w : W) → E w → E' w)
    → (r : Result A) (w : W) → Landed Q E r w
    → Landed Q E' r w
weaken-go Q E E' e (ok _) w k = k
weaken-go Q E E' e (err _) w k = e w k

-- A weaker statement of the failures.
pub Hoare-weaken :
    {W A : Type 0} {P Q E E' : W → Type 0} {m : M W A}
    → Hoare P m Q E
    → ((w : W) → E w → E' w)
    → Hoare P m Q E'
Hoare-weaken {Q} {E} {E'} {m} h e = record {
  at = λ w p. weaken-go Q E E' e (m w).0 (m w).1 (h.at w p);
}
