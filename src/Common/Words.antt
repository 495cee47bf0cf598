-- ===== src/Common/Words.antt =====
-- Arithmetic of `size_t` and `uint64_t`, with its wrap-around.
use Prim.Native.Nat.{ℕ, ◌+◌, ◌-◌, ◌%◌, ◌^◌}

abbrev pub word_mod : ℕ
word_mod = 2 ^ 64

abbrev pub add64 : ℕ → ℕ → ℕ
add64 a b = (a + b) % 2 ^ 64

abbrev pub sub64 : ℕ → ℕ → ℕ
sub64 a b = (a + 2 ^ 64 - b) % 2 ^ 64

-- `std::vector<char>::max_size()` is 2 ^ 63 - 1, so sizes lie below this bound.
abbrev pub max_size : ℕ
max_size = 2 ^ 63
