-- ===== src/Imaging/Client.antt =====
-- internal/resizer/resizer.go: the client of the image service.
use go_image_service.Base.{
  ℕ, ◌-◌, ◌%◌, ◌≤◌, true, false, ◌<◌, ◌≡◌, List, M, catch, pure, fail, arith, ltb,
}
use go_image_service.Base.Inversion.{catch-pure}
use go_image_service.Base.Integers.{ℤ, pos, negsuc, int32, signed32}
use go_image_service.Imaging.{ResizeRequest}

-- `Client`, whose field is the call of the generated `ResizerClient`; the response is written as its
-- bytes.
pub record Client (W : Type 0) : Type 0 where
  pub grpc_resize : ResizeRequest → M W (List ℕ)

-- `Client.Resize`
unfoldable pub client_resize : {W : Type 0} → Client W → List ℕ → ℤ → ℤ → M W (List ℕ)
unfolding int32
client_resize c content width height w =
    catch
      (c.grpc_resize
        (record {
          image_to_resize = content;
          image_width = int32 width;
          image_height = int32 height;
        })
        w)
      pure fail

-- The number fits into 32 bits.
abbrev pub IsInt32 : ℤ → Type 0
IsInt32 (pos n) = n < 0x80000000
IsInt32 (negsuc n) = n < 0x80000000

signed32-low : (m : ℕ) → m < 0x80000000 → signed32 m ≡ pos m
signed32-low m h = rw test
  where
    test : ltb m 0x80000000 ≡ true
    test = ground arith

signed32-high : (m n : ℕ) → 0x80000000 ≤ m → 0xFFFFFFFF - m ≡ n → signed32 m ≡ negsuc n
signed32-high m n h e = rw (test, e)
  where
    test : ltb m 0x80000000 ≡ false
    test = ground arith

small : (n : ℕ) → n < 0x80000000 → n % 0x100000000 ≡ n
small n h = omega arith

int32-IsInt32 : (x : ℤ) → IsInt32 x → int32 x ≡ x
unfolding int32
int32-IsInt32 (pos n) h = rw small (signed32-low n h)
int32-IsInt32 (negsuc n) h = rw small (signed32-high (0xFFFFFFFF - n) n (omega arith) (omega arith))

-- The client sends a width and a height that fit into 32 bits as they are, with the bytes of the
-- image, and answers what the service answers.
pub client_resize-IsInt32 :
    {W : Type 0} (c : Client W) (content : List ℕ) (width height : ℤ) (w : W)
    → IsInt32 width
    → IsInt32 height
    → client_resize c content width height w
      ≡ c.grpc_resize
          (record { image_to_resize = content; image_width = width; image_height = height })
          w
unfolding client_resize
client_resize-IsInt32 c content width height w a b =
    rw (int32-IsInt32 width a, int32-IsInt32 height b) (catch-pure _)
