-- ===== src/Net/RingBuffer/Wrapped.antt =====
-- Where burger/net/RingBuffer.cc goes round: `hasWritten` takes the remainder by the capacity, which is
-- eight less than the vector's size, so the writer lands in the eight spare bytes.
use native.Mathlib.Nat.{mod-eq_of_lt}
use burger.Common.{
  ℕ, ◌+◌, ◌-◌, ◌%◌, ◌≤◌, ◌<◌, ◌≡◌, refl, ap, ◌∙◌, true, false, some, List, [], ◌∷◌, arith, ◌==◌,
  le→leb, le→ltb_false, ◌>>=◌, add64, max_size, length, slice, write_at, length-write_at,
  slice-write_before,
}
use burger.Net.Buffer.{cheap_prepend}
use burger.Net.RingBuffer.{
  Ring, readable_bytes, writable_bytes, append, append_with, ensure_with, has_written, copy_in,
  copy_out, retrieve, retrieve_all, retrieve_as_string, retrieve_all_as_string,
}

-- The writer has gone round into the spare bytes, and there is room for one byte more.
pub record IsRound (r : Ring) : Type 0 where
  pub whole : r.total ≡ length r.bytes
  pub spare : r.capacity + cheap_prepend ≡ length r.bytes
  pub small : length r.bytes < max_size
  pub data_held : r.has_data ≡ true
  pub round : r.writer < cheap_prepend
  pub room : r.writer + cheap_prepend < r.reader
  pub inside : r.reader < r.capacity

module _ (r : Ring) (v : IsRound r) (x : ℕ) where
  abbrev grown : Ring
  grown = record r {
    bytes = write_at r.bytes r.writer (x ∷ []);
    writer = r.writer + 1;
    has_data = true;
  }

  append_round : append (x ∷ []) r ≡ some grown
  unfolding append append_with ensure_with has_written
  append_round =
      let w : 1 ≤ writable_bytes r = ground arith in
      let i = le→ltb_false (writable_bytes r) 1 w in
      let l = le→leb 1 (writable_bytes r) w in
      let c : copy_in (x ∷ []) r ≡ some (write_at r.bytes r.writer (x ∷ [])) = ground arith in
      let a : add64 r.writer 1 ≡ r.writer + 1 = omega arith in
      let z : (r.capacity == 0) ≡ false = ground arith in
      let m : (r.writer + 1) % r.capacity ≡ r.writer + 1 =
        mod-eq_of_lt {n = r.writer + 1} (omega arith) in
      rw (i, l, c, l, a, z, m) refl

  -- What is read back: the bytes from the reader to the end and past it, without the writer's.
  abbrev count : ℕ
  count = (r.capacity - (r.reader - r.writer)) + 1

  all_round : retrieve_all_as_string grown ≡ some (slice r.bytes r.reader count, retrieve_all grown)
  unfolding retrieve_all_as_string retrieve_as_string retrieve
  all_round =
      let n : readable_bytes grown ≡ count = ground arith in
      let c : copy_out count grown ≡ some (slice grown.bytes r.reader count) =
        ground (arith, length-write_at r.bytes r.writer (x ∷ [])) in
      let e = slice-write_before r.bytes (x ∷ []) r.writer r.reader count (omega arith) in
      rw (n, le→leb count count (omega arith), c, le→ltb_false count count (omega arith), e) refl

-- From a ring with data whose writer has gone round the end into the spare bytes at the front, and
-- with room left, a byte that is appended is lost: whatever it is, the string read back from the
-- whole ring is the same.
pub append_lost :
    (r : Ring)
    → IsRound r
    → (s : List ℕ) × ((x : ℕ)
        → (r' : Ring) × ((append (x ∷ []) r >>= retrieve_all_as_string) ≡ some (s, r')))
append_lost r v = (
  slice r.bytes r.reader ((r.capacity - (r.reader - r.writer)) + 1),
  λ x. (
    retrieve_all (grown r v x),
    ap (λ m. m >>= retrieve_all_as_string) (append_round r v x) ∙ all_round r v x,
  ),
)
