-- ===== src/Imaging/Bounded.antt =====
-- How many images are decoded at once, and who is answered what.
use mathlib.Core.Path.{subst}
use go_image_service.Base.{
  ℕ, suc, ◌≤◌, ◌<◌, String, ◌≡◌, ◌≢◌, refl, sym, ap, ◌⊎◌, inl, inr, List, [], ◌∷◌, ◌++◌, All, some,
  arith, Result, err, Code, status, length, length-append,
}
use go_image_service.Base.Integers.{ℤ}
use go_image_service.Imaging.{Codec, ResizeRequest, answer}
use go_image_service.Imaging.Server.{
  at_least_one, new_server, Running, started, IsFree, Step, arrive, acquire, cancel, finish, Reach,
  here, next,
}

pub length-middle :
    {A : Type 0} (xs : List A) (x : A) (ys : List A)
    → length (xs ++ x ∷ ys) ≡ suc (length (xs ++ ys))
length-middle xs x ys = omega (arith, length-append xs (x ∷ ys), length-append xs ys)

module _ {Image : Type 0} (c : Codec Image) where
  -- The answer is that of the request, or an error of the caller's context.
  abbrev pub IsAnswer : ResizeRequest × Result (List ℕ) → Type 0
  IsAnswer (req, result) =
      (result ≡ answer c req)
      ⊎ ((code : Code) × (text : String) × (result ≡ err (status code text)))

  -- Every decoding call holds one slot of the channel, whose capacity does not change.
  pub record IsBounded (capacity : ℕ) (s : Running) : Type 0 where
    pub same : s.sem ≡ some capacity
    pub held : s.taken ≡ length s.decoding
    pub room : s.taken ≤ capacity
    pub answers : All IsAnswer s.answered

  pub Step-IsBounded :
      {capacity : ℕ} {s t : Running} → Step c s t → IsBounded capacity s → IsBounded capacity t
  Step-IsBounded (arrive req) h = record {
    same = h.same;
    held = h.held;
    room = h.room;
    answers = h.answers;
  }
  Step-IsBounded {capacity} (acquire {s} xs req ys found free) h = record {
    same = h.same;
    held = rw h.same (ap suc h.held);
    room = rw h.same (subst (λ o. IsFree o s.taken) h.same free);
    answers = h.answers;
  }
  Step-IsBounded (cancel xs req ys code text limited found) h = record {
    same = h.same;
    held = h.held;
    room = h.room;
    answers = (inr (code, text, refl), h.answers);
  }
  Step-IsBounded (finish {s} xs req ys found) h = record {
    same = h.same;
    held = rw h.same (omega (arith, h.held, ap length found, length-middle xs req ys));
    room = rw h.same (omega (arith, h.room));
    answers = (inl refl, h.answers);
  }

  pub Reach-IsBounded :
      {capacity : ℕ} {s t : Running} → IsBounded capacity s → Reach c s t → IsBounded capacity t
  Reach-IsBounded h here = h
  Reach-IsBounded h (next r step) = Step-IsBounded step (Reach-IsBounded h r)

  pub started-IsBounded : (n : ℤ) → IsBounded (at_least_one n) (started (new_server n))
  started-IsBounded n = record { same = refl; held = refl; room = omega arith; answers = tt }

  -- A call that waits can be let in.
  abbrev pub CanEnter : Running → Type 0
  CanEnter s = (req : ResizeRequest) × (t : Running) × Step c s t × (t.decoding ≡ req ∷ s.decoding)

  pub enter :
      (s : Running) (capacity : ℕ) (waiting : List ResizeRequest)
      → IsBounded capacity s
      → length s.decoding < capacity
      → s.waiting ≡ waiting
      → waiting ≢ []
      → CanEnter s
  enter s capacity [] h lt e filled = absurd (filled refl)
  enter s capacity (req ∷ ys) h lt e filled = (
    req,
    _,
    acquire [] req ys e (subst (λ o. IsFree o s.taken) (sym h.same) (omega (arith, lt, h.held))),
    refl,
  )

  -- However calls arrive, wait, are cancelled and finish, a server made by `NewServer` never decodes more
  -- images at once than its argument, or than one if that is less than one; each answer is that of
  -- its own request or a status of its caller's context; and while a call waits and fewer images are
  -- decoded, a waiting call can be let in.
  pub Reach-bounded :
      (max_concurrent : ℤ) {s : Running}
      → Reach c (started (new_server max_concurrent)) s
      → (length s.decoding ≤ at_least_one max_concurrent)
        × All IsAnswer s.answered
        × (s.waiting ≢ [] → length s.decoding < at_least_one max_concurrent → CanEnter s)
  Reach-bounded n {s} r =
      let h = Reach-IsBounded (started-IsBounded n) r in
      (
        omega (arith, h.held, h.room),
        h.answers,
        λ filled lt. enter s (at_least_one n) s.waiting h lt refl filled,
      )
