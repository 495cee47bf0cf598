-- ===== src/Net/Endian.antt =====
-- burger/net/Endian.h: the bytes in memory of a number in network byte order.
use native.Mathlib.Nat.{pow-suc}
use mathlib.Core.List.{foldl, foldl-append}
use burger.Common.{
  ℕ, zero, suc, ◌+◌, ◌*◌, ◌/◌, ◌%◌, ◌^◌, ◌<◌, ◌≡◌, refl, List, [], ◌∷◌, ◌++◌, arith, length,
  length-append,
}

-- `hostToNetwork64`, `32`, `16`: the `k` bytes that hold the number, most significant first.
unfoldable pub host_to_network : ℕ → ℕ → List ℕ
host_to_network zero x = []
host_to_network (suc k) x = host_to_network k (x / 256) ++ (x % 256) ∷ []

-- `networkToHost64`, `32`, `16`.
abbrev pub shift_in : ℕ → ℕ → ℕ
shift_in acc b = acc * 256 + b

unfoldable pub network_to_host : List ℕ → ℕ
network_to_host = foldl shift_in 0

pub length-host_to_network : (k x : ℕ) → length (host_to_network k x) ≡ k
unfolding host_to_network
length-host_to_network zero x = refl
length-host_to_network (suc k) x = omega (
  arith,
  length-append (host_to_network k (x / 256)) ((x % 256) ∷ []),
  length-host_to_network k (x / 256),
)

-- The bytes of a number that fits give the number back.
pub network_to_host-host_to_network :
    (k x : ℕ) → x < 256 ^ k → network_to_host (host_to_network k x) ≡ x
unfolding host_to_network network_to_host
network_to_host-host_to_network zero x h = omega arith
network_to_host-host_to_network (suc k) x h =
    rw (foldl-append shift_in 0 (host_to_network k (x / 256)) ((x % 256) ∷ []))
      (omega (arith, network_to_host-host_to_network k (x / 256) (omega (arith, pow-suc 256 k))))
