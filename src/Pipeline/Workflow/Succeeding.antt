-- ===== src/Pipeline/Workflow/Succeeding.antt =====
-- What a success that Temporal reports says of the attempts behind it.
use go_image_service.Base.{
  ℕ, ◌≡◌, ◌≢◌, refl, ap, ◌∙◌, List, [], ◌∷◌, map, Option, none, some, All, arith, string_eq, Result,
  ok, err, Err, M,
}
use go_image_service.Pipeline.Workflow.{Call, resize_error}
use go_image_service.Pipeline.Workflow.Attempts.{Attempts, unscheduled, returned, lost, again}
use go_image_service.Pipeline.Workflow.Fan.{Job, err_ne_ok}

module _ {W : Type 0} (m : M W (Unit {0})) where
  none_left :
      {n : ℕ} {w w' : W} {r : Result (Unit {0})} → Attempts m n w r w' → n ≡ 0 → ¬ (r ≡ ok tt)
  none_left (unscheduled e) z good = absurd (err_ne_ok e good)
  none_left (returned e) z good = omega (arith, z)
  none_left (lost r e eq) z good = omega (arith, z)
  none_left (again r' eq more) z good = omega (arith, z)

  -- A single attempt that is reported as a success is one.
  pub Attempts-one :
      {n : ℕ} {w w' : W} {r : Result (Unit {0})}
      → Attempts m n w r w'
      → n ≡ 1
      → r ≡ ok tt
      → m w ≡ (ok tt, w')
  Attempts-one (unscheduled e) one good = absurd (err_ne_ok e good)
  Attempts-one (returned {w'} e) one good = e ∙ ap (λ r. (r, w')) good
  Attempts-one (lost r e eq) one good = absurd (err_ne_ok e good)
  Attempts-one (again r' eq more) one good = absurd (none_left more (omega (arith, one)) good)

resize_error-some : (e : Err) (rs : List (Result (Unit {0}))) → resize_error (some e) rs ≢ none
resize_error-some e [] h = cc
resize_error-some e (ok _ ∷ rs) h = resize_error-some e rs h
resize_error-some e (err x ∷ rs) h = resize_error-some x rs h

-- No error is kept only where every future held a value.
pub resize_error-none :
    (rs : List (Result (Unit {0}))) → resize_error none rs ≡ none → All (λ r. r ≡ ok tt) rs
resize_error-none [] h = tt
resize_error-none (ok _ ∷ rs) h = (refl, resize_error-none rs h)
resize_error-none (err x ∷ rs) h = absurd (resize_error-some x rs h)

abbrev call_of : Job → Call
call_of j = j.call

abbrev future_of : Job → Option (Result (Unit {0}))
future_of j = j.settled

-- Where every result is a success and every success has reached `P`, every call has.
pub reached :
    (P : Call → Type 0) (js : List Job) (rs : List (Result (Unit {0})))
    → map future_of js ≡ map some rs
    → All (λ r. r ≡ ok tt) rs
    → All (λ (j : Job). j.settled ≡ some (ok tt) → P j.call) js
    → All P (map call_of js)
reached P [] rs f good h = tt
reached P (j ∷ js) [] f good h = absurd (cons_ne_nil f)
  where
    cons_ne_nil :
        {x : Option (Result (Unit {0}))} {xs : List (Option (Result (Unit {0})))} → x ∷ xs ≢ []
    cons_ne_nil e = cc
reached P (j ∷ js) (r ∷ rs) f (g, good) (h, hs) =
    (h (head f ∙ ap some g), reached P js rs (tail f) good hs)
  where
    head :
        {x y : Option (Result (Unit {0}))} {xs ys : List (Option (Result (Unit {0})))}
        → x ∷ xs ≡ y ∷ ys
        → x ≡ y
    head e = cc

    tail :
        {x y : Option (Result (Unit {0}))} {xs ys : List (Option (Result (Unit {0})))}
        → x ∷ xs ≡ y ∷ ys
        → xs ≡ ys
    tail e = cc
