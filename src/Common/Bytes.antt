-- ===== src/Common/Bytes.antt =====
-- Numbers in the memory of a little-endian machine.
use Prim.Native.Nat.{ℕ, zero, suc, ◌+◌, ◌*◌, ◌/◌, ◌%◌, ◌^◌, ◌<◌}
use mathlib.Core.Path.{◌≡◌, refl, ap}
use mathlib.Core.List.{List, [], ◌∷◌}
use native.Mathlib.Omega.{arith}
use native.Mathlib.Nat.{pow-suc}
use burger.Common.Lists.{length}

-- The low `k` bytes of a number in the memory of a little-endian machine.
unfoldable pub to_memory : ℕ → ℕ → List ℕ
to_memory zero n = []
to_memory (suc k) n = n % 256 ∷ to_memory k (n / 256)

unfoldable pub from_memory : List ℕ → ℕ
from_memory [] = 0
from_memory (b ∷ bs) = b + 256 * from_memory bs

pub length-to_memory : (k n : ℕ) → length (to_memory k n) ≡ k
unfolding to_memory
length-to_memory zero n = refl
length-to_memory (suc k) n = ap suc (length-to_memory k (n / 256))

pub from_memory-to_memory : (k n : ℕ) → n < 256 ^ k → from_memory (to_memory k n) ≡ n
unfolding to_memory from_memory
from_memory-to_memory zero n h = omega arith
from_memory-to_memory (suc k) n h =
    omega (arith, from_memory-to_memory k (n / 256) (omega (arith, pow-suc 256 k)))
