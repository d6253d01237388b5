-- ===== src/Pipeline/Workflow.antt =====
-- internal/pipeline/workflow.go. Temporal is the interface `Temporal`: it waits, and it runs
-- activities under a policy.
pub mod Fan
pub mod Attempts
pub mod Lifecycle
pub mod Ending
pub mod Succeeding
pub mod Thumbnails
pub mod Fulfilled
pub mod Framing
pub mod Limits
pub mod Apart
pub mod Recorded
use go_image_service.Base.{
  ℕ, ◌*◌, String, Bool, true, false, not, List, [], ◌∷◌, Option, none, some, map, if◌then◌else◌,
  Err, Result, ok, err, M, ◌>>=◌, ◌>>◌, pure, fail, ignore,
}
use go_image_service.Pipeline.Activities.{ValidateInput, ResizeInput, Activities}
use go_image_service.Pipeline.Activities as Acts

-- An activity with its input.
pub data Call : Type 0 where
  validate : ValidateInput → Call
  processing : String → Call
  resize : ResizeInput → Call
  complete : String → Call
  mark_failed : String → Call
  abandon : String → Call

-- The worker runs the activity that it has registered under the call's name.
abbrev pub run : {W : Type 0} → Activities W → Call → M W (Unit {0})
run a (validate i) = Acts.validate a i
run a (processing id) = Acts.processing a id
run a (resize i) = Acts.resize a i
run a (complete id) = Acts.complete a id
run a (mark_failed id) = Acts.mark_failed a id
run a (abandon id) = Acts.abandon a id

-- `ActivityOptions`: the limit of one attempt in seconds, and how many attempts there are.
pub record Policy : Type 0 where
  pub start_to_close : ℕ
  pub maximum_attempts : ℕ

-- `execute` is `ExecuteActivity(…).Get(…)`; `execute_all` starts every activity, in order, and then
-- gets every future, in order. `wait` is the selector's `Select`: true if the signal came before the timer.
pub record Temporal (W : Type 0) : Type 0 where
  pub new_timer : ℕ → W → W
  pub wait : W → Bool × W
  pub cancel_timer : W → W
  pub execute : Policy → Call → M W (Unit {0})
  pub execute_all : Policy → List Call → W → List (Result (Unit {0})) × W

-- Fifteen minutes.
abbrev pub upload_timeout : ℕ
upload_timeout = 15 * 60

pub record UploadInput : Type 0 where
  pub id : String
  pub content_type : String
  pub filename : String

pub record ResizeSpec : Type 0 where
  pub name : String
  pub w : ℕ
  pub h : ℕ

abbrev pub sizes : List ResizeSpec
sizes = record { name = "12x12"; w = 12; h = 12 } ∷ record { name = "25x25"; w = 25; h = 25 } ∷ []

abbrev pub activity_options : Policy
activity_options = record { start_to_close = 2 * 60; maximum_attempts = 3 }

abbrev pub validate_options : Policy
validate_options = record { start_to_close = 60; maximum_attempts = 1 }

-- The call of the fan-out for one size.
abbrev pub resize_call : UploadInput → ResizeSpec → Call
resize_call i s =
    resize (record {
      id = i.id;
      content_type = i.content_type;
      name = s.name;
      width = s.w;
      height = s.h;
    })

-- The loop over the futures: the last error is kept.
abbrev pub resize_error : Option Err → List (Result (Unit {0})) → Option Err
resize_error last [] = last
resize_error last (ok _ ∷ results) = resize_error last results
resize_error last (err e ∷ results) = resize_error (some e) results

module _ {W : Type 0} (t : Temporal W) where
  -- `if resizeErr != nil`
  unfoldable pub finish : UploadInput → Option Err → M W (Unit {0})
  finish i none = t.execute activity_options (complete i.id)
  finish i (some e) = do ignore (t.execute activity_options (mark_failed i.id)); fail e

  -- The fan-out, and what follows it.
  unfoldable pub fan_out : UploadInput → M W (Unit {0})
  unfolding finish
  fan_out i w =
      let (results, w') = t.execute_all activity_options (map (resize_call i) sizes) w in
      finish i (resize_error none results) w'

  -- The workflow once the signal has come.
  unfoldable pub process : UploadInput → M W (Unit {0})
  unfolding fan_out
  process i = do
    t.execute validate_options (validate (record { id = i.id; content_type = i.content_type }))
    t.execute activity_options (processing i.id)
    fan_out i

  abbrev after_wait : UploadInput → Bool × W → Result (Unit {0}) × W
  after_wait i (false, w) = t.execute activity_options (abandon i.id) w
  after_wait i (true, w) = process i (t.cancel_timer w)

  -- `UploadWorkflow`
  unfoldable pub upload_workflow : UploadInput → M W (Unit {0})
  unfolding process
  upload_workflow i w = after_wait i (t.wait (t.new_timer upload_timeout w))
