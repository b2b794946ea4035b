-- ===== src/LockAuth/Numbers.antt =====
-- Numbers in network order, as crates/lock-auth/src/lib.rs writes and reads them.
use genkan.Prelude.{
  ℕ, zero, suc, ◌+◌, ◌*◌, ◌/◌, ◌%◌, ◌^◌, ◌<◌, List, [], ◌∷◌, ◌++◌, ◌≡◌, refl, arith, length,
  length-append,
}
use genkan.LockAuth.{to_be_bytes, from_be}

pub to_be_bytes-length : (width n : ℕ) → length (to_be_bytes width n) ≡ width
unfolding to_be_bytes
to_be_bytes-length zero n = refl
to_be_bytes-length (suc width) n = omega (
  arith,
  to_be_bytes-length width (n / 256),
  length-append (to_be_bytes width (n / 256)) (n % 256 ∷ []),
)

from_be-snoc :
    (high : ℕ) (bs : List ℕ) (b : ℕ) → from_be high (bs ++ (b ∷ [])) ≡ from_be high bs * 256 + b
unfolding from_be
from_be-snoc high [] b = refl
from_be-snoc high (c ∷ bs) b = from_be-snoc (high * 256 + c) bs b

-- What is left of a number above its lowest bytes.
unfoldable pub above : ℕ → ℕ → ℕ
above zero n = n
above (suc width) n = above width (n / 256)

pub from_be-to_be_bytes : (width n : ℕ) → above width n ≡ 0 → from_be 0 (to_be_bytes width n) ≡ n
unfolding to_be_bytes from_be above
from_be-to_be_bytes zero n h = omega (arith, h)
from_be-to_be_bytes (suc width) n h = omega (
  arith,
  from_be-snoc 0 (to_be_bytes width (n / 256)) (n % 256),
  from_be-to_be_bytes width (n / 256) h,
)

pub above-u32 : (n : ℕ) → n < 2 ^ 32 → above 4 n ≡ 0
unfolding above
above-u32 n h = omega (arith, h)

pub above-u64 : (n : ℕ) → n < 2 ^ 64 → above 8 n ≡ 0
unfolding above
above-u64 n h = omega (arith, h)
