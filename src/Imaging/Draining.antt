-- ===== src/Imaging/Draining.antt =====
-- Every call of the image service is answered in the end.
use mathlib.Core.Path.{subst}
use native.Mathlib.Decide.{ℕ_discrete}
use go_image_service.Base.{
  ℕ, zero, suc, ◌+◌, ◌*◌, ◌≤◌, ◌<◌, ◌≡◌, refl, sym, ap, ◌∙◌, ◌⊎◌, inl, inr, List, [], ◌∷◌, arith,
  length, length-append,
}
use go_image_service.Base.Integers.{ℤ, pos, negsuc}
use go_image_service.Imaging.{Codec, ResizeRequest}
use go_image_service.Imaging.Server.{
  at_least_one, new_server, Running, IsFree, started, Step, arrive, acquire, cancel, finish, Reach,
}
use go_image_service.Imaging.Bounded.{
  IsBounded, Step-IsBounded, Reach-IsBounded, started-IsBounded, length-middle,
}

-- All calls that have arrived.
abbrev pub calls : Running → ℕ
calls s = length s.waiting + length s.decoding + length s.answered

-- The steps that the calls still have to make: two for one that waits, one for one that decodes.
abbrev pub load : Running → ℕ
load s = 2 * length s.waiting + length s.decoding

abbrev pub IsDrained : Running → Type 0
IsDrained s = (length s.waiting ≡ 0) × (length s.decoding ≡ 0)

module _ {Image : Type 0} (c : Codec Image) where
  -- A run of so many steps in which no call arrives.
  pub data Quiet (s : Running) : ℕ → Running → Type 0 where
    still : Quiet s 0 s
    moved :
        {n : ℕ} {t u : Running} → Quiet s n t → Step c t u → calls u ≡ calls t → Quiet s (suc n) u

  load-Step : {s t : Running} → Step c s t → calls t ≡ calls s → load t < load s
  load-Step (arrive {s} req) e = omega (arith, e, length-append s.waiting (req ∷ []))
  load-Step (acquire xs req ys found _) e = omega (arith, ap length found, length-middle xs req ys)
  load-Step (cancel xs req ys _ _ _ found) e =
      omega (arith, ap length found, length-middle xs req ys)
  load-Step (finish xs req ys found) e = omega (arith, ap length found, length-middle xs req ys)

  load-Quiet : {s t : Running} {n : ℕ} → Quiet s n t → n + load t ≤ load s
  load-Quiet still = omega arith
  load-Quiet (moved r step e) = omega (arith, load-Quiet r, load-Step step e)

  calls-Quiet : {s t : Running} {n : ℕ} → Quiet s n t → calls t ≡ calls s
  calls-Quiet still = refl
  calls-Quiet (moved r step e) = e ∙ calls-Quiet r

  -- A step that lets no call in, from a state where some call is under way.
  abbrev Moves : Running → Type 0
  Moves s = (t : Running) × Step c s t × (calls t ≡ calls s)

  waiting-Moves :
      (s : Running) (capacity : ℕ) (waiting : List ResizeRequest)
      → IsBounded c capacity s
      → 0 < capacity
      → length s.decoding ≡ 0
      → s.waiting ≡ waiting
      → ¬ IsDrained s
      → Moves s
  waiting-Moves s capacity [] h room idle e busy = absurd (busy (ap length e, idle))
  waiting-Moves s capacity (req ∷ ys) h room idle e busy =
      let free = subst (λ o. IsFree o s.taken) (sym h.same) (omega (arith, room, idle, h.held)) in
      (_, acquire [] req ys e free, omega (arith, ap length e))

  busy-Moves :
      (s : Running) (capacity : ℕ) (decoding : List ResizeRequest)
      → IsBounded c capacity s
      → 0 < capacity
      → s.decoding ≡ decoding
      → ¬ IsDrained s
      → Moves s
  busy-Moves s capacity (req ∷ ys) h room e busy =
      (_, finish [] req ys e, omega (arith, ap length e))
  busy-Moves s capacity [] h room e busy =
      waiting-Moves s capacity s.waiting h room (ap length e) refl busy

  dec-IsDrained : (s : Running) → IsDrained s ⊎ (¬ IsDrained s)
  dec-IsDrained s = elim (ℕ_discrete (load s) 0) [
    | yes e ↦ inl (omega arith, omega arith)
    | no n ↦ inr (λ (a, b). n (omega arith))
  ]

  -- Some run without arrivals ends where no call waits or decodes.
  abbrev pub Drains : Running → Type 0
  Drains s = (n : ℕ) × (t : Running) × Quiet s n t × IsDrained t

  before :
      {s t u : Running} {n : ℕ} → Step c s t → calls t ≡ calls s → Quiet t n u → Quiet s (suc n) u
  before step e still = moved still step e
  before step e (moved r step' e') = moved (before step e r) step' e'

  drain :
      (limit capacity : ℕ) (s : Running)
      → load s ≤ limit
      → IsBounded c capacity s
      → 0 < capacity
      → Drains s
  drain zero capacity s le h room = (0, s, still, (omega arith, omega arith))
  drain (suc limit) capacity s le h room = elim (dec-IsDrained s) [
    | inl done ↦ (0, s, still, done)
    | inr busy ↦
        let (t, step, e) = busy-Moves s capacity s.decoding h room refl busy in
        let (n, u, run, done) =
          drain limit capacity t (omega (arith, le, load-Step step e)) (Step-IsBounded c step h)
            room in
        (suc n, u, before step e run, done)
  ]

  Quiet-IsBounded :
      {capacity : ℕ} {s t : Running} {n : ℕ}
      → IsBounded c capacity s
      → Quiet s n t
      → IsBounded c capacity t
  Quiet-IsBounded h still = h
  Quiet-IsBounded h (moved r step e) = Step-IsBounded c step (Quiet-IsBounded h r)

  at_least_one_pos : (n : ℤ) → 0 < at_least_one n
  at_least_one_pos (pos zero) = omega arith
  at_least_one_pos (pos (suc n)) = omega arith
  at_least_one_pos (negsuc n) = omega arith

  -- Once no more calls arrive at a server made by `NewServer`, it makes at most two steps for each call
  -- that waits and one for each that decodes; and after any such steps it can go on until every call
  -- that has arrived is answered, so that it never stops with a call left.
  pub Reach-drains :
      (max_concurrent : ℤ) {s : Running}
      → Reach c (started (new_server max_concurrent)) s
      → (k : ℕ) (t : Running) → Quiet s k t
      → (k + load t ≤ load s)
        × ((n : ℕ) × (u : Running) × Quiet t n u × IsDrained u × (length u.answered ≡ calls s))
  Reach-drains max_concurrent r k t run =
      let h = Quiet-IsBounded (Reach-IsBounded c (started-IsBounded c max_concurrent) r) run in
      let (n, u, rest, done) =
        drain (load t) (at_least_one max_concurrent) t (omega arith) h
          (at_least_one_pos max_concurrent) in
      (
        load-Quiet run,
        (n, u, rest, done, omega (arith, done.0, done.1, calls-Quiet rest, calls-Quiet run)),
      )
