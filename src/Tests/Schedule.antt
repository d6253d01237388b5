-- ===== src/Tests/Schedule.antt =====
-- A Temporal that tries an activity again where it fails, and a fan-out's activities once each.
use mathlib.Core.List.{append_assoc}
use go_image_service.Base.{
  ◌++◌, map, inl, inr, ℕ, zero, suc, String, List, [], ◌∷◌, Option, some, ◌≡◌, refl, Bool, Result,
  ok, err, message, M, pure, catch,
}
use go_image_service.Pipeline.Activities.{Activities}
use go_image_service.Pipeline.Workflow.{Call, run, Policy, Temporal}
use go_image_service.Pipeline.Workflow.Attempts.{Attempts, unscheduled, returned, again, IsTemporal}
use go_image_service.Pipeline.Workflow.Fan.{Job, job, Fan, rest, attempt, give_up}

module _ {W : Type 0} (m : M W (Unit {0})) where
  abbrev retry : ℕ → M W (Unit {0})
  retry zero row = (err (message "no attempt is left"), row)
  retry (suc n) row = catch (m row) pure (λ _ row. retry n row)

  Retried : ℕ → Type 0
  Retried n = (w : W) → Attempts m n w (retry n w).0 (retry n w).1

  retry-go :
      (n : ℕ) (w : W) (r : Result (Unit {0}) × W)
      → Retried n
      → m w ≡ r
      → Attempts m
          (suc n)
          w
          (catch r pure (λ _ row. retry n row)).0
          (catch r pure (λ _ row. retry n row)).1
  unfolding Retried
  retry-go n w (ok _, w') more e = returned e
  retry-go n w (err x, w') more e = again _ e (more w')

  retry-Attempts : (n : ℕ) → Retried n
  unfolding Retried
  retry-Attempts zero w = unscheduled _
  retry-Attempts (suc n) w = retry-go n w (m w) (retry-Attempts n) refl

module _ {W : Type 0} (a : Activities W) where
  abbrev execute : Policy → Call → M W (Unit {0})
  execute p c = retry (run a c) p.maximum_attempts

  abbrev one_less : ℕ → ℕ
  one_less zero = zero
  one_less (suc n) = n

  -- A fan-out makes one attempt of each activity, one after the other.
  unfoldable pub once : ℕ → Call → M W (Unit {0})
  once zero c row = (err (message "no attempt is left"), row)
  once (suc n) c row = run a c row

  unfoldable pub execute_all : ℕ → List Call → W → List (Result (Unit {0})) × W
  unfolding once
  execute_all n [] row = ([], row)
  execute_all n (c ∷ cs) row =
      let (r, row') = once n c row in let (rs, row'') = execute_all n cs row' in (r ∷ rs, row'')

  after : ℕ → List Call → W → List Job
  after n [] row = []
  after n (c ∷ cs) row =
      record { call = c; left = one_less n; settled = some (once n c row).0 }
      ∷ after n cs (once n c row).1

  Fan-once :
      (n : ℕ) (xs : List Job) (c : Call) (ys js' : List Job) (row row' : W)
      → Fan a
          (xs ++ record { call = c; left = one_less n; settled = some (once n c row).0 } ∷ ys)
          (once n c row).1
          js'
          row'
      → Fan a (xs ++ job n c ∷ ys) row js' row'
  unfolding once
  Fan-once zero xs c ys js' row row' next = give_up xs c 0 ys _ refl next
  Fan-once (suc n) xs c ys js' row row' next = attempt xs c n ys _ refl (inr (inl refl)) next

  Fan-execute_all :
      (n : ℕ) (xs : List Job) (cs : List Call) (row : W)
      → Fan a (xs ++ map (job n) cs) row (xs ++ after n cs row) (execute_all n cs row).1
  unfolding execute_all after
  Fan-execute_all n xs [] row = rest
  Fan-execute_all n xs (c ∷ cs) row =
      let j : Job = record { call = c; left = one_less n; settled = some (once n c row).0 } in
      Fan-once n xs c _ _ row _ (
        rw (← append_assoc xs (j ∷ []) (map (job n) cs)) (
          rw (← append_assoc xs (j ∷ []) (after n cs (once n c row).1))
            (Fan-execute_all n (xs ++ j ∷ []) cs (once n c row).1)))

  settled-after :
      (n : ℕ) (cs : List Call) (row : W)
      → map (λ (j : Job). j.settled) (after n cs row) ≡ map some (execute_all n cs row).0
  unfolding execute_all after
  settled-after n [] row = refl
  settled-after n (c ∷ cs) row = rw (settled-after n cs (once n c row).1)

  abbrev pub simple_temporal : Bool → Temporal W
  simple_temporal signaled = record {
    new_timer = λ _ row. row;
    wait = λ row. (signaled, row);
    cancel_timer = λ row. row;
    execute = execute;
    execute_all = λ p cs row. execute_all p.maximum_attempts cs row;
  }

  pub simple-IsTemporal :
      (status : W → Option String) (signaled : Bool)
      → IsTemporal (simple_temporal signaled) a status
  unfolding Retried
  simple-IsTemporal status signaled = record {
    execute-Attempts = λ p c w. retry-Attempts (run a c) p.maximum_attempts w;
    execute_all-Fan = λ p cs row. (
      after p.maximum_attempts cs row,
      Fan-execute_all p.maximum_attempts [] cs row,
      settled-after p.maximum_attempts cs row,
    );
    status-new_timer = λ _ _. refl;
    status-wait = λ _. refl;
    status-cancel_timer = λ _. refl;
  }
