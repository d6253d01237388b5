-- ===== src/Pipeline/Workflow/Limits.antt =====
-- How often the activities of a workflow are attempted at most.
use mathlib.Core.Path.{subst}
use go_image_service.Base.{
  ℕ, suc, ◌+◌, ◌*◌, ◌≤◌, String, ◌≡◌, true, false, List, [], ◌∷◌, ◌++◌, map, Option, none, some,
  Err, Result, ok, err, M, fail, catch, arith,
}
use go_image_service.Pipeline.Activities.{Activities}
use go_image_service.Pipeline.Workflow.{
  Call, validate, processing, complete, mark_failed, abandon, run, Policy, Temporal, UploadInput,
  sizes, resize_call, resize_error, finish, fan_out, process, upload_workflow, activity_options,
  validate_options, upload_timeout,
}
use go_image_service.Pipeline.Workflow.Attempts.{
  Attempts, unscheduled, returned, lost, again, IsTemporal,
}
use go_image_service.Pipeline.Workflow.Fan.{Job, job, Fan, rest, attempt, give_up}

-- What the attempts that are left to the jobs cost at most, where an attempt of a call costs `cost`.
abbrev owed : (Call → ℕ) → List Job → ℕ
owed cost [] = 0
owed cost (j ∷ js) = j.left * cost j.call + owed cost js

-- One attempt of each.
abbrev pub sum_of : (Call → ℕ) → List Call → ℕ
sum_of cost [] = 0
sum_of cost (c ∷ cs) = cost c + sum_of cost cs

owed-append :
    (cost : Call → ℕ) (xs ys : List Job) → owed cost (xs ++ ys) ≡ owed cost xs + owed cost ys
owed-append cost [] ys = omega arith
owed-append cost (x ∷ xs) ys = omega (arith, owed-append cost xs ys)

mul-suc : (n m : ℕ) → suc n * m ≡ n * m + m
mul-suc n m = grind arith

abbrev check : UploadInput → Call
check i = validate (record { id = i.id; content_type = i.content_type })

-- One attempt to validate, and three of each of the rest; `last` is for the mark that ends the workflow.
abbrev pub budget : (Call → ℕ) → UploadInput → ℕ → ℕ
budget cost i last =
    cost (check i)
    + 3 * cost (processing i.id)
    + 3 * sum_of cost (map (resize_call i) sizes)
    + 3 * last

-- An activity costs at most `cost` at an attempt, as `spent` shows of the world.
module _ {W : Type 0} (a : Activities W) (cost : Call → ℕ) (spent : W → ℕ)
    (each : (c : Call) (w : W) → spent (run a c w).1 ≤ spent w + cost c) where
  once :
      (c : Call) (w : W) {w' : W} {r : Result (Unit {0})}
      → run a c w ≡ (r, w')
      → spent w' ≤ spent w + cost c
  once c w e = subst (λ (x : Result (Unit {0}) × W). spent x.1 ≤ spent w + cost c) e (each c w)

  Attempts-le :
      (c : Call) {n : ℕ} {w w' : W} {r : Result (Unit {0})}
      → Attempts (run a c) n w r w'
      → spent w' ≤ spent w + n * cost c
  Attempts-le c (unscheduled {n} {w} e) = grind arith
  Attempts-le c (returned {n} {w} {w'} e) = grind (arith, once c w e)
  Attempts-le c (lost {n} {w} {w'} r x e) = grind (arith, once c w e)
  Attempts-le c (again {n} {w} {w'} {w''} r e more) = grind (arith, once c w e, Attempts-le c more)

  Fan-le :
      {js js' : List Job} {w w' : W}
      → Fan a js w js' w'
      → spent w' + owed cost js' ≤ spent w + owed cost js
  Fan-le rest = omega arith
  Fan-le (attempt {js} {js'} {w} {w'} xs c n ys o e reported next) =
      rw e (grind (arith, Fan-le next, each c w, owed-append cost xs, mul-suc n (cost c)))
  Fan-le (give_up {js} {js'} {w} {w'} xs c n ys x e next) =
      rw e (grind (arith, Fan-le next, owed-append cost xs))

  -- No job has been attempted at first.
  owed-jobs : (n : ℕ) (cs : List Call) → owed cost (map (job n) cs) ≡ n * sum_of cost cs
  owed-jobs n [] = omega arith
  owed-jobs n (c ∷ cs) = grind (arith, owed-jobs n cs)

  module _ (t : Temporal W) (status : W → Option String) (temporal : IsTemporal t a status) where
    execute-le :
        (p : Policy) (c : Call) (w : W)
        → spent (t.execute p c w).1 ≤ spent w + p.maximum_attempts * cost c
    execute-le p c w = Attempts-le c (temporal.execute-Attempts p c w)

    execute_all-le :
        (p : Policy) (cs : List Call) (w : W)
        → spent (t.execute_all p cs w).1 ≤ spent w + p.maximum_attempts * sum_of cost cs
    execute_all-le p cs w =
        let (js, fan, _) = temporal.execute_all-Fan p cs w in
        omega (arith, Fan-le fan, owed-jobs p.maximum_attempts cs)

    module _ (i : UploadInput) (last : ℕ) (completed : cost (complete i.id) ≤ last)
        (failed : cost (mark_failed i.id) ≤ last) where
      finish-le : (e : Option Err) (w : W) → spent (finish t i e w).1 ≤ spent w + 3 * last
      unfolding finish
      finish-le none w = omega (arith, execute-le activity_options (complete i.id) w, completed)
      finish-le (some e) w = omega (arith, execute-le activity_options (mark_failed i.id) w, failed)

      fan_out-le :
          (w : W)
          → spent (fan_out t i w).1
            ≤ spent w + (3 * sum_of cost (map (resize_call i) sizes) + 3 * last)
      unfolding fan_out
      fan_out-le w =
          let calls = map (resize_call i) sizes in
          let (results, w') = t.execute_all activity_options calls w in
          omega (
            arith,
            execute_all-le activity_options calls w,
            finish-le (resize_error none results) w',
          )

      bind-le :
          (m k n : ℕ) (f : M W (Unit {0})) (w : W) (r : Result (Unit {0}) × W)
          → spent r.1 ≤ spent w + m
          → ((v : W) → spent (f v).1 ≤ spent v + k)
          → m + k ≤ n
          → spent (catch r (λ _. f) fail).1 ≤ spent w + n
      bind-le m k n f w (ok _, v) h next le = omega (arith, next v)
      bind-le m k n f w (err _, v) h next le = omega arith

      process-le : (w : W) → spent (process t i w).1 ≤ spent w + budget cost i last
      unfolding process
      process-le w =
          bind-le (1 * cost (check i))
            (3 * cost (processing i.id) + (3 * sum_of cost (map (resize_call i) sizes) + 3 * last))
            (budget cost i last) _ w (t.execute validate_options (check i) w)
            (execute-le validate_options (check i) w)
            (λ v.
              bind-le (3 * cost (processing i.id))
                (3 * sum_of cost (map (resize_call i) sizes) + 3 * last) _ (fan_out t i) v
                (t.execute activity_options (processing i.id) v)
                (execute-le activity_options (processing i.id) v) fan_out-le (omega arith))
            (omega arith)

      module _ (timer : (n : ℕ) (w : W) → spent (t.new_timer n w) ≤ spent w)
          (wait : (w : W) → spent (t.wait w).1 ≤ spent w)
          (cancel : (w : W) → spent (t.cancel_timer w) ≤ spent w) where
        -- Where an attempt of an activity costs at most `cost` of its call, in any measure that waiting does not
        -- raise: a workflow that was signalled costs at most one validation, and three times the mark as processing,
        -- each resize, and the dearer one of the marks that end it. One that was not costs at most three
        -- times the abandonment. This is so however the attempts fail, are repeated or interleave.
        pub upload_workflow-le :
            (w : W)
            → ((t.wait (t.new_timer upload_timeout w)).0 ≡ true
                → spent (upload_workflow t i w).1 ≤ spent w + budget cost i last)
              × ((t.wait (t.new_timer upload_timeout w)).0 ≡ false
                  → spent (upload_workflow t i w).1 ≤ spent w + 3 * cost (abandon i.id))
        unfolding upload_workflow
        upload_workflow-le w =
            let v = t.new_timer upload_timeout w in
            let v' = (t.wait v).1 in
            (
              λ e. rw e (
                  omega (
                    arith,
                    process-le (t.cancel_timer v'),
                    cancel v',
                    wait v,
                    timer upload_timeout w,
                  )),
              λ e. rw e (
                  omega (
                    arith,
                    execute-le activity_options (abandon i.id) v',
                    wait v,
                    timer upload_timeout w,
                  )),
            )
