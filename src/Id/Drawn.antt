-- ===== src/Id/Drawn.antt =====
-- Drawing an id touches nothing but the source of random bytes.
use go_image_service.Base.{ℕ, List, M}
use go_image_service.Base.Keeps.{Keeps, bind-Keeps, pure-Keeps}
use go_image_service.Id.{new_id}

pub new_id-Keeps :
    {W : Type 0} {P : W → Type 0} (rand_read : ℕ → M W (List ℕ))
    → Keeps P (rand_read 16)
    → Keeps P (new_id rand_read)
unfolding new_id
new_id-Keeps rand_read k = bind-Keeps k (λ b. pure-Keeps _)
