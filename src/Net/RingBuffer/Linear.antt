-- ===== src/Net/RingBuffer/Linear.antt =====
-- A ring of burger/net/RingBuffer.cc that has not gone round its end yet behaves as a queue of bytes.
use native.Mathlib.Nat.{mod-eq_of_lt}
use burger.Common.{
  ◌%◌, ℕ, ◌+◌, ◌-◌, ◌≤◌, ◌<◌, ◌≡◌, refl, sym, ◌⊎◌, inl, inr, true, false, ◌||◌, some, List, ◌++◌,
  arith, ltb, ◌==◌, Bool-cases, tests, le→leb, le→ltb_false, add64, max_size, length, take, drop,
  slice, write_at, length-write_at, length-slice, slice-write_end, take-slice, drop-slice, drop-all,
}
use burger.Net.Buffer.{cheap_prepend}
use burger.Net.RingBuffer.{
  Ring, readable_bytes, writable_bytes, append, append_with, ensure_with, make_space, has_written,
  copy_in, copy_out, retrieve, retrieve_all, retrieve_as_string,
}

-- The readable bytes lie in one run behind the first eight.
pub record IsLinear (r : Ring) : Type 0 where
  pub whole : r.total ≡ length r.bytes
  pub spare : r.capacity + cheap_prepend ≡ length r.bytes
  pub small : length r.bytes < max_size
  pub lead : cheap_prepend ≤ r.reader
  pub ordered : r.reader ≤ r.writer
  pub inside : r.writer < r.capacity
  pub shape :
      ((r.has_data ≡ true) × (r.reader < r.writer))
      ⊎ ((r.has_data ≡ false) × (r.reader ≡ cheap_prepend) × (r.writer ≡ cheap_prepend))

abbrev pub contents : Ring → List ℕ
contents r = slice r.bytes r.reader (r.writer - r.reader)

module _ (r : Ring) (v : IsLinear r) where
  readable-IsLinear : readable_bytes r ≡ r.writer - r.reader
  readable-IsLinear = ground arith

  length-contents : length (contents r) ≡ r.writer - r.reader
  length-contents = length-slice r.bytes r.reader (r.writer - r.reader) (omega arith)

  writable-IsLinear : r.capacity ≤ writable_bytes r + r.writer
  writable-IsLinear = ground arith

module _ (text : List ℕ) (r : Ring) (v : IsLinear r)
    (fits : r.writer + length text < r.capacity) where
  ensure_idle : ensure_with make_space (length text) r ≡ some r
  unfolding ensure_with
  ensure_idle =
      let w = writable-IsLinear r v in
      rw (
        le→ltb_false (writable_bytes r) (length text) (omega (arith, w)),
        le→leb (length text) (writable_bytes r) (omega (arith, w)),
      )

  copy_in_run : copy_in text r ≡ some (write_at r.bytes r.writer text)
  copy_in_run = ground arith

  abbrev grown : Ring
  grown = record r {
    bytes = write_at r.bytes r.writer text;
    writer = r.writer + length text;
    has_data = ltb 0 (length text) || r.has_data;
  }

  written :
      has_written (length text) (record r { bytes = write_at r.bytes r.writer text }) ≡ some grown
  unfolding has_written
  written =
      let w = writable-IsLinear r v in
      let a : add64 r.writer (length text) ≡ r.writer + length text = omega arith in
      let m : (r.writer + length text) % r.capacity ≡ r.writer + length text = mod-eq_of_lt fits in
      let l = le→leb (length text) (writable_bytes r) (omega (arith, w)) in
      let z : (r.capacity == 0) ≡ false = ground arith in rw (l, a, z, m) refl

  grown-IsLinear : IsLinear grown
  grown-IsLinear = ground (arith, length-write_at r.bytes r.writer text)

  -- Appending a text to a ring whose content does not go round the end, when the writer stays
  -- below the capacity, succeeds, puts the text behind the content and leaves such a ring.
  pub append-IsLinear :
      (r' : Ring) × (append text r ≡ some r') × IsLinear r' × (contents r' ≡ contents r ++ text)
  unfolding append append_with
  append-IsLinear =
      let m = r.writer - r.reader in
      let q : r.writer + length text - r.reader ≡ m + length text = omega arith in
      (
        grown,
        rw (ensure_idle, copy_in_run) written,
        grown-IsLinear,
        rw q (slice-write_end r.bytes text r.reader m r.writer (omega arith) (omega arith)),
      )

copy_out_run :
    (len : ℕ) (r : Ring)
    → IsLinear r
    → len ≤ r.writer - r.reader
    → copy_out len r ≡ some (slice r.bytes r.reader len)
copy_out_run len r v h = ground arith

-- Taking no more bytes than a ring holds whose content does not go round the end gives its first
-- bytes, drops just these and leaves such a ring.
pub retrieve_as_string-IsLinear :
    (len : ℕ) (r : Ring)
    → IsLinear r
    → len ≤ length (contents r)
    → (r' : Ring) × (retrieve_as_string len r ≡ some (take len (contents r), r'))
      × IsLinear r'
      × (contents r' ≡ drop len (contents r))
unfolding retrieve_as_string retrieve
retrieve_as_string-IsLinear len r v h =
    let lc = length-contents r v in
    let rd = readable-IsLinear r v in
    let n = r.writer - r.reader in
    let t = take-slice r.bytes r.reader len n (omega (arith, lc)) in
    let c = copy_out_run len r v (omega (arith, lc)) in
    let le = le→leb len (readable_bytes r) (omega (arith, lc, rd)) in
    elim (Bool-cases (ltb len (readable_bytes r))) [
      | inl lt ↦
          let r' : Ring = record r { reader = r.reader + len } in
          let v' : IsLinear r' = ground (arith, rd) in
          let a : add64 r.reader len ≡ r.reader + len = omega (arith, lc) in
          let z : (r.capacity == 0) ≡ false = ground arith in
          let m : (r.reader + len) % r.capacity ≡ r.reader + len =
            mod-eq_of_lt {n = r.reader + len} (omega (arith, lc)) in
          let more : (readable_bytes r' == 0) ≡ false =
            ground (arith, readable-IsLinear r' v', rd) in
          (
            r',
            rw (le, c, lt, a, z, m, more, t) refl,
            v',
            drop-slice r.bytes r.reader len n (r.reader + len) (r.writer - (r.reader + len)) refl
                (omega arith) (omega (arith, lc)),
          )
      | inr ge ↦ (
        retrieve_all r,
        rw (le, c, ge, t) refl,
        ground arith,
        sym (drop-all len (contents r) (omega (tests, ge, lc, rd))),
      )
    ]
