-- ===== src/Pipeline/Workflow/Apart.antt =====
-- The rows that a workflow leaves alone.
use mathlib.Core.Option
use go_image_service.Base.{
  ℕ, String, ◌≡◌, ◌≢◌, refl, ap, ◌∙◌, ◌⊎◌, inl, inr, List, Option, none, some, string_eq, ==_refl,
  ==_ne, if_true, if_false, Result,
}
use go_image_service.Metadata.Table.{
  Table, Row, Same, Updated, set_status, IsTable, WriteSpec, done, undone, unconfirmed,
}
use go_image_service.Metadata.Refinement.{update-go}
use go_image_service.Pipeline.Activities.{Activities}
use go_image_service.Pipeline.Workflow.{Temporal, UploadInput, upload_workflow}
use go_image_service.Pipeline.Workflow.Attempts.{IsTemporal}
use go_image_service.Pipeline.Workflow.Framing.{IsKept, upload_workflow-Keeps}

-- The rows of other ids are as they were, and the row of the id is so but for its status.
pub record IsTouched (id : String) (t t' : Table) : Type 0 where
  pub others : (k : String) → k ≢ id → t' k ≡ t k
  pub own : (t' id ≡ t id) ⊎ ((s : String) × (t' id ≡ Option.map (set_status s) (t id)))

-- What the code relies on: the table, and an object store and an image service that leave it as it is.
pub record IsApart {W : Type 0} (a : Activities W) (find : W → Table) : Type 0 where
  pub table : IsTable a.repo find
  pub get_same : (key : String) (w : W) → Same (find w) (find (a.objects.get key w).1)
  pub sniff_same :
      (key : String) (n : ℕ) (w : W) → Same (find w) (find (a.objects.get_first_n_bytes key n w).1)
  pub head_same : (key : String) (w : W) → Same (find w) (find (a.objects.head key w).1)
  pub put_same :
      (key : String) (content : List ℕ) (ct : String) (w : W)
      → Same (find w) (find (a.objects.put key content ct w).1)
  pub delete_same : (key : String) (w : W) → Same (find w) (find (a.objects.delete key w).1)
  pub resize_same :
      (content : List ℕ) (x y : ℕ) (w : W) → Same (find w) (find (a.resize content x y w).1)

IsTouched-Same :
    {id : String} {t t' t'' : Table} → IsTouched id t t' → Same t' t'' → IsTouched id t t''
IsTouched-Same {id} h same = record {
  others = λ k n. same k ∙ h.others k n;
  own = elim h.own [ inl e ↦ inl (same id ∙ e) | inr (s, e) ↦ inr (s, same id ∙ e) ];
}

set_twice :
    (s s' : String) (o : Option Row)
    → Option.map (set_status s') (Option.map (set_status s) o) ≡ Option.map (set_status s') o
set_twice s s' none = refl
set_twice s s' (some row) = refl

IsTouched-Updated :
    {id : String} {t t' t'' : Table} (s : String)
    → IsTouched id t t'
    → Updated id s t' t''
    → IsTouched id t t''
IsTouched-Updated {id} {t} s h updated =
    let here = updated id ∙ if_true _ _ _ (==_refl id) in
    record {
      others = λ k n. updated k ∙ if_false _ _ _ (==_ne k id n) ∙ h.others k n;
      own = elim h.own [
        | inl e ↦ inr (s, here ∙ ap (Option.map (set_status s)) e)
        | inr (s', e) ↦ inr (s, here ∙ ap (Option.map (set_status s)) e ∙ set_twice s' s (t id))
      ];
    }

IsTouched-Write :
    {id : String} {t t' t'' : Table} (s : String) {r : Result (Unit {0})}
    → IsTouched id t t'
    → WriteSpec (Updated id s) t' t'' r
    → IsTouched id t t''
IsTouched-Write s h (done u) = IsTouched-Updated s h u
IsTouched-Write s h (undone _ same) = IsTouched-Same h same
IsTouched-Write s h (unconfirmed _ u) = IsTouched-Updated s h u

module _ {W : Type 0} (a : Activities W) (i : UploadInput) (find : W → Table)
    (apart : IsApart a find) where
  abbrev Since : W → W → Type 0
  Since w0 w = IsTouched i.id (find w0) (find w)

  Since-IsKept : (w0 : W) → IsKept a i.id (Since w0)
  Since-IsKept w0 = record {
    update-Keeps = λ s. record {
      at = λ w h. IsTouched-Write s h (update-go a.repo find apart.table w i.id s _ refl);
    };
    get-Keeps = λ key. record { at = λ w h. IsTouched-Same h (apart.get_same key w) };
    sniff-Keeps = λ key n. record { at = λ w h. IsTouched-Same h (apart.sniff_same key n w) };
    head-Keeps = λ key. record { at = λ w h. IsTouched-Same h (apart.head_same key w) };
    put-Keeps =
        λ key content ct. record { at = λ w h. IsTouched-Same h (apart.put_same key content ct w) };
    delete-Keeps = λ key. record { at = λ w h. IsTouched-Same h (apart.delete_same key w) };
    resize-Keeps =
        λ content x y. record { at = λ w h. IsTouched-Same h (apart.resize_same content x y w) };
  }

  -- However a workflow ends and whatever activities fail, are retried or interleave: every row but
  -- that of its id is as it was, the row of its id keeps all columns but the status, and no row is
  -- added or removed; if the timer and the wait leave the table as it is. The pool is assumed to
  -- do to the table what its statements say, the store and the image service to leave it, and
  -- Temporal to attempt an activity as its policy says.
  pub upload_workflow-IsTouched :
      (t : Temporal W) (status : W → Option String)
      → IsTemporal t a status
      → ((n : ℕ) (w : W) → Same (find w) (find (t.new_timer n w)))
      → ((w : W) → Same (find w) (find (t.wait w).1))
      → ((w : W) → Same (find w) (find (t.cancel_timer w)))
      → (w : W) → IsTouched i.id (find w) (find (upload_workflow t i w).1)
  upload_workflow-IsTouched t status temporal timer wait cancel w =
      (upload_workflow-Keeps a (Since w) i (Since-IsKept w) t status temporal
          (λ n v h. IsTouched-Same h (timer n v)) (λ v h. IsTouched-Same h (wait v))
          (λ v h. IsTouched-Same h (cancel v))).at
        w (record { others = λ _ _. refl; own = inl refl })
