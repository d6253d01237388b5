-- ===== src/Tests/Settings.antt =====
-- Ids, negotiated ids, lists of the environment and dialled addresses.
use mathlib.Core.Path.{subst}
use go_image_service.Base.{
  ℕ, zero, suc, ◌<◌, String, ◌<>◌, List, [], ◌∷◌, ◌≡◌, refl, ok, Result, M, All, arith, ne_of_==,
  string_eq, length, len, is_space,
}
use go_image_service.Id.{new_id}
use go_image_service.Id.Hex.{IsHex, hex_encode}
use go_image_service.Id.Shape.{IsRandom}
use go_image_service.Config.Laws.{IsEntry, IsAllowlist}
use go_image_service.Upload.{Service, negotiate}
use go_image_service.Upload.Ids.{negotiate-IsHex}
use go_image_service.GrpcAuth.{Credentials, dial}
use go_image_service.GrpcAuth.Laws.{IsHost, dial_host, dial-scheme}

-- A source that yields one byte over and over, and counts the calls.
abbrev sevens : ℕ → List ℕ
sevens zero = []
sevens (suc n) = 7 ∷ sevens n

abbrev read_sevens : ℕ → M ℕ (List ℕ)
read_sevens n w = (ok (sevens n), suc w)

length-sevens : (n : ℕ) → length (sevens n) ≡ n
length-sevens zero = refl
length-sevens (suc n) = omega (arith, length-sevens n)

sevens-bytes : (n : ℕ) → All (λ b. b < 256) (sevens n)
sevens-bytes zero = tt
sevens-bytes (suc n) = (omega arith, sevens-bytes n)

drawn : (n w w' : ℕ) (bs : List ℕ) → read_sevens n w ≡ (ok bs, w') → sevens n ≡ bs
drawn n w w' bs e = cc

IsRandom-sevens : IsRandom read_sevens
IsRandom-sevens = record {
  length-read = λ n w w' bs e. cc (drawn n w w' bs e, length-sevens n);
  bytes = λ n w w' bs e. subst (All (λ b. b < 256)) (drawn n w w' bs e) (sevens-bytes n);
}

abbrev seven_id : String
seven_id = "07070707070707070707070707070707"

sevens_id : new_id read_sevens 0 ≡ (ok seven_id, 1)
unfolding new_id hex_encode
sevens_id = refl

sevens_again : new_id read_sevens 5 ≡ (ok seven_id, 6)
unfolding new_id hex_encode
sevens_again = refl

abbrev origin_env : String → String
origin_env _ = "a,b"

a-IsEntry : IsEntry "a"
unfolding is_space string_eq
a-IsEntry = (ne_of_== "a" "" refl, (refl, refl), (omega arith, tt))

b-IsEntry : IsEntry "b"
unfolding is_space string_eq
b-IsEntry = (ne_of_== "b" "" refl, (refl, refl), (omega arith, tt))

star-IsAllowlist : IsAllowlist ("*" ∷ [])
unfolding is_space string_eq
star-IsAllowlist = ((λ e. cc), ((ne_of_== "*" "" refl, (refl, refl), (omega arith, tt)), tt))

-- A token source that answers the audience, and a connection that is its target.
abbrev audience : String → Result String
audience a = ok a

abbrev target : String → Credentials String → Result String
target t _ = ok t

auth-IsHost : IsHost "svc.run.app"
unfolding string_eq
auth-IsHost = (ne_of_== "svc.run.app" "" refl, omega arith, omega arith)

dial-scheme_example :
    (dial audience target ("https://" <> "svc.run.app")
      ≡ dial_host audience target "svc.run.app" (audience ("https://" <> "svc.run.app")))
    × (dial audience target ("https://" <> ("svc.run.app" <> "/"))
        ≡ dial_host audience target "svc.run.app" (audience ("https://" <> "svc.run.app")))
dial-scheme_example = dial-scheme audience target "svc.run.app" auth-IsHost

abbrev sevens_service : Service ℕ
sevens_service = record {
  repo = record { create = λ _ _ _ _ _ w. (ok tt, suc w) };
  objects = record { presign = λ _ _ _ w. (ok "url", suc w) };
  pipe = record { start = λ _ _ _ w. (ok tt, suc w); signal = λ _ w. (ok tt, suc w) };
  rand_read = read_sevens;
}

negotiated : negotiate sevens_service "f.png" "image/png" "ann" 0 ≡ (ok (seven_id, "url"), 4)
unfolding negotiate new_id hex_encode
negotiated = refl

negotiate-IsHex_example : (len seven_id ≡ 32) × IsHex seven_id
negotiate-IsHex_example =
    negotiate-IsHex sevens_service "f.png" "image/png" "ann" IsRandom-sevens seven_id "url" 0 4
      negotiated
