-- ===== src/Pipeline/Workflow/Attempts.antt =====
-- What Temporal may do with an activity, and what an activity that is tried again and again leaves.
use mathlib.Core.Path.{subst}
use go_image_service.Base.{
  ℕ, suc, String, ◌≡◌, List, map, Option, some, refl, ◌∙◌, All, Err, Result, err, M,
}
use go_image_service.Base.Hoare.{Landed, Landed-either, Hoare}
use go_image_service.Pipeline.Activities.{Activities}
use go_image_service.Pipeline.Workflow.{Call, run, Policy, Temporal}
use go_image_service.Pipeline.Workflow.Fan.{Job, job, Fan, Fan-IsSettled, jobs-IsSettled}

module _ {W : Type 0} (m : M W (Unit {0})) where
  -- At most so many attempts, one after the other. An attempt that ran may be tried again, also where
  -- only its answer was lost; a success that is reported is that of the last attempt.
  pub data Attempts : ℕ → W → Result (Unit {0}) → W → Type 0 where
    unscheduled : {n : ℕ} {w : W} (e : Err) → Attempts n w (err e) w
    returned : {n : ℕ} {w w' : W} {r : Result (Unit {0})} → m w ≡ (r, w') → Attempts (suc n) w r w'
    lost :
        {n : ℕ} {w w' : W} (r : Result (Unit {0})) (e : Err)
        → m w ≡ (r, w')
        → Attempts (suc n) w (err e) w'
    again :
        {n : ℕ} {w w' w'' : W} {r : Result (Unit {0})} (r' : Result (Unit {0}))
        → m w ≡ (r', w')
        → Attempts n w' r w''
        → Attempts (suc n) w r w''

-- What the code relies on in Temporal, for what `status` shows of the world: an activity that is
-- executed is attempted as often as its policy says; the activities of a fan-out are so in any
-- interleaving, and the results are what their futures hold; waiting does not change the status.
pub record IsTemporal {W : Type 0} (t : Temporal W) (a : Activities W) (status : W → Option String)
    : Type 0 where
  pub execute-Attempts :
      (p : Policy) (c : Call) (w : W)
      → Attempts (run a c) p.maximum_attempts w (t.execute p c w).0 (t.execute p c w).1
  pub execute_all-Fan :
      (p : Policy) (cs : List Call) (w : W)
      → (js : List Job) × Fan a (map (job p.maximum_attempts) cs) w js (t.execute_all p cs w).1
        × (map (λ j. j.settled) js ≡ map some (t.execute_all p cs w).0)
  pub status-new_timer : (seconds : ℕ) (w : W) → status (t.new_timer seconds w) ≡ status w
  pub status-wait : (w : W) → status (t.wait w).1 ≡ status w
  pub status-cancel_timer : (w : W) → status (t.cancel_timer w) ≡ status w

module _ {W : Type 0} (P Q : W → Type 0) (inside : (w : W) → Q w → P w) (m : M W (Unit {0}))
    (lands : Hoare P m Q P) where
  after : {w w' : W} {r : Result (Unit {0})} → m w ≡ (r, w') → P w → Landed Q P r w'
  after {w} e h = subst (λ x. Landed Q P x.0 x.1) e (lands.at w h)

  -- An activity that stays within `P` and ends in `Q` where it succeeds does so however often it is tried.
  pub Attempts-Landed :
      {n : ℕ} {w w' : W} {r : Result (Unit {0})} → Attempts m n w r w' → P w → Landed Q P r w'
  Attempts-Landed (unscheduled e) h = h
  Attempts-Landed (returned e) h = after e h
  Attempts-Landed (lost r e eq) h = Landed-either Q P P inside (λ _ p. p) r _ (after eq h)
  Attempts-Landed (again r' eq rest) h =
      Attempts-Landed rest (Landed-either Q P P inside (λ _ p. p) r' _ (after eq h))

module _ {W : Type 0} (t : Temporal W) (a : Activities W) (status : W → Option String)
    (temporal : IsTemporal t a status) where
  abbrev Keeps : Call → Type 0
  Keeps c = (v : W) → status (run a c v).1 ≡ status v

  -- A fan-out of activities that keep the status keeps it.
  pub status-execute_all :
      (p : Policy) (cs : List Call) (w : W)
      → All (λ c. (v : W) → status (run a c v).1 ≡ status v) cs
      → status (t.execute_all p cs w).1 ≡ status w
  status-execute_all p cs w keeps =
      let (js, fan, _) = temporal.execute_all-Fan p cs w in
      (Fan-IsSettled a Keeps (λ v. status v ≡ status w) (λ _ _. Unit {0}) (λ c k v e. k v ∙ e)
        (λ _ _ _ _ _. tt) (λ _ _ _ _ _ _ _. tt) fan refl
        (jobs-IsSettled a Keeps (λ v. status v ≡ status w) (λ _ _. Unit {0}) (λ c k v e. k v ∙ e)
          (λ _ _ _ _ _. tt) (λ _ _ _ _ _ _ _. tt) p.maximum_attempts cs w keeps)).0
