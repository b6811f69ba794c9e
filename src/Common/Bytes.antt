-- ===== src/Common/Bytes.antt =====
-- The four bytes of a uint32_t in memory, lowest first (the host order of x86 and ARM).
use Prim.Native.Nat.{ℕ, ◌+◌, ◌*◌, ◌/◌, ◌%◌, ◌^◌, ◌<◌}
use mathlib.Core.Path.{◌≡◌, refl}
use mathlib.Core.List.{List, [], ◌∷◌}
use native.Mathlib.Omega.{arith}
use touch_applauncherd.Common.Lists.{length}

unfoldable pub le32 : ℕ → List ℕ
le32 m = m % 256 ∷ m / 256 % 256 ∷ m / 65536 % 256 ∷ m / 16777216 % 256 ∷ []

-- The word whose bytes these are; missing bytes read as 0 and more than four are not looked at.
unfoldable pub from_le32 : List ℕ → ℕ
from_le32 (a ∷ b ∷ c ∷ d ∷ rest) = a + 256 * b + 65536 * c + 16777216 * d
from_le32 (a ∷ b ∷ c ∷ []) = a + 256 * b + 65536 * c
from_le32 (a ∷ b ∷ []) = a + 256 * b
from_le32 (a ∷ []) = a
from_le32 [] = 0

pub from_le32-le32 : (m : ℕ) → m < 2 ^ 32 → from_le32 (le32 m) ≡ m
unfolding le32 from_le32
from_le32-le32 m h = omega arith

pub length-le32 : (m : ℕ) → length (le32 m) ≡ 4
unfolding le32
length-le32 m = refl
