-- ===== src/Pipeline/Workflow/Fan.antt =====
-- Activities that run at once: every interleaving of their attempts.
use mathlib.Core.Path.{subst}
use go_image_service.Base.{
  ℕ, suc, ◌≡◌, refl, sym, ap, ◌∙◌, List, [], ◌∷◌, ◌++◌, map, Option, none, some, All, ◌⊎◌, inl, inr,
  Err, Result, ok, err,
}
use go_image_service.Pipeline.Activities.{Activities}
use go_image_service.Pipeline.Workflow.{Call, run}

-- An activity of a fan-out: how many attempts are left, and what its future holds, if it does.
pub record Job : Type 0 where
  pub call : Call
  pub left : ℕ
  pub settled : Option (Result (Unit {0}))

abbrev pub job : ℕ → Call → Job
job n c = record { call = c; left = n; settled = none }

-- What the future may hold after an attempt with a result: nothing yet, since the answer was lost or another
-- attempt follows; the result; or an error instead.
abbrev pub Reported : Result (Unit {0}) → Option (Result (Unit {0})) → Type 0
Reported r o = (o ≡ none) ⊎ (o ≡ some r) ⊎ ((e : Err) × (o ≡ some (err e)))

module _ {W : Type 0} (a : Activities W) where
  -- Attempts of the jobs in any order, one at a time, until some later state of the jobs and of the world.
  pub data Fan : List Job → W → List Job → W → Type 0 where
    rest : {js : List Job} {w : W} → Fan js w js w
    attempt :
        {js js' : List Job} {w w' : W} (xs : List Job) (c : Call) (n : ℕ) (ys : List Job)
        (o : Option (Result (Unit {0})))
        → js ≡ xs ++ record { call = c; left = suc n; settled = none } ∷ ys
        → Reported (run a c w).0 o
        → Fan (xs ++ record { call = c; left = n; settled = o } ∷ ys) (run a c w).1 js' w'
        → Fan js w js' w'
    give_up :
        {js js' : List Job} {w w' : W} (xs : List Job) (c : Call) (n : ℕ) (ys : List Job) (e : Err)
        → js ≡ xs ++ record { call = c; left = n; settled = none } ∷ ys
        → Fan (xs ++ record { call = c; left = n; settled = some (err e) } ∷ ys) w js' w'
        → Fan js w js' w'

pub All-map :
    {A : Type 0} (P Q : A → Type 0) → ((x : A) → P x → Q x) → (xs : List A) → All P xs → All Q xs
All-map P Q f [] _ = tt
All-map P Q f (x ∷ xs) (h, hs) = (f x h, All-map P Q f xs hs)

some_inj :
    (r s : Result (Unit {0})) → ◌≡◌ {A = Option (Result (Unit {0}))} (some r) (some s) → r ≡ s
some_inj r s e = cc

none_ne_some : {r : Result (Unit {0})} → ¬ (◌≡◌ {A = Option (Result (Unit {0}))} none (some r))
none_ne_some e = cc

pub err_ne_ok : (e : Err) → ¬ (◌≡◌ {A = Result (Unit {0})} (err e) (ok tt))
err_ne_ok e p = cc

All-middle :
    {A : Type 0} (P Q : A → Type 0)
    → ((x : A) → P x → Q x)
    → (xs : List A) (x y : A) (ys : List A) → (P x → Q y)
    → All P (xs ++ x ∷ ys)
    → All Q (xs ++ y ∷ ys)
All-middle P Q f [] x y ys g (h, hs) = (g h, All-map P Q f ys hs)
All-middle P Q f (z ∷ xs) x y ys g (h, hs) = (f z h, All-middle P Q f xs x y ys g hs)

All-at :
    {A : Type 0} (P : A → Type 0) (xs : List A) (x : A) (ys : List A) → All P (xs ++ x ∷ ys) → P x
All-at P [] x ys (h, _) = h
All-at P (z ∷ xs) x ys (_, hs) = All-at P xs x ys hs

calls-middle :
    (xs : List Job) (x y : Job) (ys : List Job)
    → x.call ≡ y.call
    → map (λ (j : Job). j.call) (xs ++ x ∷ ys) ≡ map (λ (j : Job). j.call) (xs ++ y ∷ ys)
calls-middle [] x y ys e = rw e
calls-middle (z ∷ xs) x y ys e = rw (calls-middle xs x y ys e)

-- The jobs keep their calls.
pub calls-Fan :
    {W : Type 0} (a : Activities W) {js js' : List Job} {w w' : W}
    → Fan a js w js' w'
    → map (λ (j : Job). j.call) js' ≡ map (λ (j : Job). j.call) js
calls-Fan a rest = refl
calls-Fan a (attempt xs c n ys o e reported next) =
    calls-Fan a next ∙ calls-middle xs _ _ ys refl ∙ ap (map (λ (j : Job). j.call)) (sym e)
calls-Fan a (give_up xs c n ys x e next) =
    calls-Fan a next ∙ calls-middle xs _ _ ys refl ∙ ap (map (λ (j : Job). j.call)) (sym e)

pub calls-jobs : (n : ℕ) (cs : List Call) → map (λ (j : Job). j.call) (map (job n) cs) ≡ cs
calls-jobs n [] = refl
calls-jobs n (c ∷ cs) = rw (calls-jobs n cs)

-- A rule for what holds while such activities run, `I`, and what each of them has reached once it has
-- succeeded, `Q`: both have to survive every attempt.
module _ {W : Type 0} (a : Activities W) (R : Call → Type 0) (I : W → Type 0)
    (Q : Call → W → Type 0) (keep : (c : Call) → R c → (w : W) → I w → I (run a c w).1)
    (land : (c : Call) → R c → (w : W) → I w → (run a c w).0 ≡ ok tt → Q c (run a c w).1)
    (stay : (c c' : Call) → R c → R c' → (w : W) → I w → Q c' w → Q c' (run a c w).1) where
  abbrev pub IsSettled : W → Job → Type 0
  IsSettled w j = R j.call × (j.settled ≡ some (ok tt) → Q j.call w)

  report :
      (c : Call) (w : W) (o : Option (Result (Unit {0})))
      → R c
      → I w
      → Reported (run a c w).0 o
      → o ≡ some (ok tt)
      → Q c (run a c w).1
  report c w o r i (inl e) s = absurd (none_ne_some (sym e ∙ s))
  report c w o r i (inr (inl e)) s = land c r w i (some_inj _ _ (sym e ∙ s))
  report c w o r i (inr (inr (x, e))) s = absurd (err_ne_ok x (some_inj _ _ (sym e ∙ s)))

  pub Fan-IsSettled :
      {js js' : List Job} {w w' : W}
      → Fan a js w js' w'
      → I w
      → All (IsSettled w) js
      → I w' × All (IsSettled w') js'
  Fan-IsSettled rest i h = (i, h)
  Fan-IsSettled (attempt {w} xs c n ys o e reported next) i h =
      let h' = subst (All (IsSettled w)) e h in
      let r = (All-at (IsSettled w) xs _ ys h').0 in
      Fan-IsSettled next (keep c r w i) (
        All-middle (IsSettled w) (IsSettled (run a c w).1)
          (λ j (r', q). (r', λ s. stay c j.call r r' w i (q s))) xs _ _ ys
          (λ _. (r, report c w o r i reported)) h')
  Fan-IsSettled (give_up {w} xs c n ys x e next) i h =
      let h' = subst (All (IsSettled w)) e h in
      Fan-IsSettled next i (
        All-middle (IsSettled w) (IsSettled w) (λ j p. p) xs _ _ ys
          (λ (r, _). (r, λ s. absurd (err_ne_ok x (some_inj _ _ s)))) h')

  -- No future holds a value at first.
  pub jobs-IsSettled :
      (n : ℕ) (cs : List Call) (w : W) → All R cs → All (IsSettled w) (map (job n) cs)
  jobs-IsSettled n [] w _ = tt
  jobs-IsSettled n (c ∷ cs) w (r, rs) =
      ((r, λ s. absurd (none_ne_some s)), jobs-IsSettled n cs w rs)
