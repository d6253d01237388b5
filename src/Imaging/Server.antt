-- ===== src/Imaging/Server.antt =====
-- internal/imaging/server.go: requests that wait for a slot, and those that decode.
use go_image_service.Base.{
  ℕ, zero, suc, ◌-◌, ◌<◌, String, ◌≡◌, ◌≢◌, List, [], ◌∷◌, ◌++◌, Option, none, some, Result, err,
  Code, status,
}
use go_image_service.Base.Integers.{ℤ, pos, negsuc}
use go_image_service.Imaging.{Codec, ResizeRequest, answer}

abbrev pub at_least_one : ℤ → ℕ
at_least_one (pos zero) = 1
at_least_one (pos (suc n)) = suc n
at_least_one (negsuc n) = 1

-- `Server`: the capacity of the channel `sem`, or none for a nil channel.
pub record ImageServer : Type 0 where
  pub sem : Option ℕ

-- `NewServer`
abbrev pub new_server : ℤ → ImageServer
new_server max_concurrent = record { sem = some (at_least_one max_concurrent) }

-- A server that runs: how many slots of its channel are taken, the calls that wait in the `select`,
-- those that have passed it, and the answers.
pub record Running : Type 0 where
  pub sem : Option ℕ
  pub taken : ℕ
  pub waiting : List ResizeRequest
  pub decoding : List ResizeRequest
  pub answered : List (ResizeRequest × Result (List ℕ))

abbrev pub started : ImageServer → Running
started s = record { sem = s.sem; taken = 0; waiting = []; decoding = []; answered = [] }

-- A send to the channel can go on: there is room, or the channel is nil and the `select` is skipped.
abbrev pub IsFree : Option ℕ → ℕ → Type 0
IsFree none taken = Unit
IsFree (some capacity) taken = taken < capacity

abbrev pub send : Option ℕ → ℕ → ℕ
send none taken = taken
send (some _) taken = suc taken

-- The deferred receive.
abbrev pub receive : Option ℕ → ℕ → ℕ
receive none taken = taken
receive (some _) taken = taken - 1

module _ {Image : Type 0} (c : Codec Image) where
  -- What may happen next, over all calls of `Server.Resize`.
  pub data Step : Running → Running → Type 0 where
    arrive :
        {s : Running} (req : ResizeRequest) → Step s (record s { waiting = s.waiting ++ req ∷ [] })
    acquire :
        {s : Running} (xs : List ResizeRequest) (req : ResizeRequest) (ys : List ResizeRequest)
        → s.waiting ≡ xs ++ req ∷ ys
        → IsFree s.sem s.taken
        → Step s (record s {
          taken = send s.sem s.taken;
          waiting = xs ++ ys;
          decoding = req ∷ s.decoding;
        })
    cancel :
        {s : Running} (xs : List ResizeRequest) (req : ResizeRequest) (ys : List ResizeRequest)
        (code : Code) (text : String)
        → s.sem ≢ none
        → s.waiting ≡ xs ++ req ∷ ys
        → Step s
            (record s { waiting = xs ++ ys; answered = (req, err (status code text)) ∷ s.answered })
    finish :
        {s : Running} (xs : List ResizeRequest) (req : ResizeRequest) (ys : List ResizeRequest)
        → s.decoding ≡ xs ++ req ∷ ys
        → Step s (record s {
          taken = receive s.sem s.taken;
          decoding = xs ++ ys;
          answered = (req, answer c req) ∷ s.answered;
        })

  pub data Reach (s : Running) : Running → Type 0 where
    here : Reach s s
    next : {t u : Running} → Reach s t → Step t u → Reach s u
