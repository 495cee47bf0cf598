-- ===== src/Net/Buffer/Valid.antt =====
-- The invariant of burger/net/Buffer.cc, the content that a buffer stands for, and what the calls that
-- make room and move bytes do to both.
use burger.Common.{
  min, ℕ, ◌+◌, ◌-◌, ◌≤◌, ◌<◌, ◌≡◌, refl, ap, ◌∙◌, inl, inr, some, List, ◌++◌, arith, ltb,
  Bool-cases, le→ltb_false, tests, max_size, add64, length, slice, write_at, length-write_at,
  length-slice, slice-write_at, slice-write_end, resize_grow,
}
use burger.Net.Buffer.{
  Buffer, cheap_prepend, readable_bytes, writable_bytes, make_space, ensure_writable_bytes, append,
  has_written,
}

pub record IsValid (b : Buffer) : Type 0 where
  pub ordered : b.reader ≤ b.writer
  pub within : b.writer ≤ length b.bytes
  pub small : length b.bytes < max_size
  pub spare : cheap_prepend ≤ length b.bytes

-- The bytes that a reader of the buffer gets, in order.
abbrev pub contents : Buffer → List ℕ
contents b = slice b.bytes b.reader (b.writer - b.reader)

pub readable_bytes-IsValid : (b : Buffer) → IsValid b → readable_bytes b ≡ b.writer - b.reader
readable_bytes-IsValid b v = omega arith

pub writable_bytes-IsValid : (b : Buffer) → IsValid b → writable_bytes b ≡ length b.bytes - b.writer
writable_bytes-IsValid b v = omega arith

pub length-contents : (b : Buffer) → IsValid b → length (contents b) ≡ b.writer - b.reader
length-contents b v = length-slice b.bytes b.reader (b.writer - b.reader) (omega arith)

-- A call that keeps the content and the invariant, and leaves room for `len` more bytes.
pub record HasRoom (len : ℕ) (b : Buffer) (b' : Buffer) : Type 0 where
  pub valid : IsValid b'
  pub same : contents b' ≡ contents b
  pub room : b'.writer + len ≤ length b'.bytes
  pub grown : length b'.bytes ≤ length b.bytes + len
  -- The reader stays, or moves back to index 8.
  pub lead : min cheap_prepend b.reader ≤ b'.reader

module _ (len : ℕ) (b : Buffer) (v : IsValid b) (fits : length b.bytes + len < max_size) where
  make_space_lem :
      length b.bytes < b.writer + len
      → (b' : Buffer) × (make_space len b ≡ some b') × HasRoom len b b'
  unfolding make_space
  make_space_lem tight =
      elim (Bool-cases (ltb (add64 (writable_bytes b) b.reader) (add64 len cheap_prepend))) [
        | inl h ↦
            let (ys, e, l, s) =
              resize_grow 0 (b.writer + len) b.bytes (omega arith) (omega arith) in
            let w : add64 b.writer len ≡ b.writer + len = omega arith in
            (
              record b { bytes = ys },
              rw (h, w, e),
              record {
                valid = omega arith;
                same = s b.reader (b.writer - b.reader) (omega arith);
                room = omega arith;
                grown = omega arith;
                lead = omega arith;
              },
            )
        | inr h ↦
            let n = b.writer - b.reader in
            let r : readable_bytes b ≡ n = omega arith in
            let l = length-contents b v in
            let w : add64 cheap_prepend n ≡ cheap_prepend + n = omega arith in
            let e : n ≡ (cheap_prepend + n) - cheap_prepend = omega arith in
            (
              record {
                bytes = write_at b.bytes cheap_prepend (contents b);
                reader = cheap_prepend;
                writer = cheap_prepend + n;
              },
              rw (h, r, w) (ground arith),
              record {
                valid = omega (tests, h, length-write_at b.bytes cheap_prepend (contents b));
                same =
                    let q : (cheap_prepend + n) - cheap_prepend ≡ length (contents b) =
                      omega (arith, l) in
                    rw q (slice-write_at b.bytes cheap_prepend (contents b) (omega (tests, l)));
                room = omega (tests, h, length-write_at b.bytes cheap_prepend (contents b));
                grown = omega (arith, length-write_at b.bytes cheap_prepend (contents b));
                lead = omega arith;
              },
            )
      ]

  pub ensure_writable_bytes_lem :
      (b' : Buffer) × (ensure_writable_bytes len b ≡ some b') × HasRoom len b b'
  unfolding ensure_writable_bytes
  ensure_writable_bytes_lem = elim (Bool-cases (ltb (writable_bytes b) len)) [
    | inl h ↦
        let (b', e, r) = make_space_lem (omega (tests, h)) in (b', rw (h, e) (ground arith), r)
    | inr h ↦ (
      b,
      rw h (ground arith),
      record {
        valid = v;
        same = refl;
        room = omega (tests, h);
        grown = omega arith;
        lead = omega arith;
      },
    )
  ]

ensure_writable_bytes_idle :
    (len : ℕ) (b : Buffer)
    → IsValid b
    → b.writer + len ≤ length b.bytes
    → ensure_writable_bytes len b ≡ some b
unfolding ensure_writable_bytes
ensure_writable_bytes_idle len b v h =
    rw (le→ltb_false (writable_bytes b) len (omega arith)) (ground arith)

-- Appending succeeds while the vector can hold the bytes, and puts them behind the content.
module _ (text : List ℕ) (b : Buffer) (v : IsValid b) where
  pub append_lem :
      length b.bytes + length text < max_size
      → (b' : Buffer) × (append text b ≡ some b')
        × IsValid b'
        × (contents b' ≡ contents b ++ text)
        × (length b'.bytes ≤ length b.bytes + length text)
        × (min cheap_prepend b.reader ≤ b'.reader)
  unfolding append has_written
  append_lem fits =
      let (c, e, r) = ensure_writable_bytes_lem (length text) b v fits in
      let l = length-write_at c.bytes c.writer text in
      let w : add64 c.writer (length text) ≡ c.writer + length text =
        omega (arith, r.valid, r.room) in
      (
        record c { bytes = write_at c.bytes c.writer text; writer = c.writer + length text },
        rw (e, w) (ground (arith, l, r)),
        omega (arith, l, r),
        (let m = c.writer - c.reader in
            let q : c.writer + length text - c.reader ≡ m + length text = omega (arith, r.valid) in
            rw q (
              slice-write_end c.bytes text c.reader m c.writer (omega (arith, r.valid))
                (omega (arith, r))
              ∙ ap (λ s. s ++ text) r.same)),
        omega (arith, l, r),
        r.lead,
      )

  -- With room already there the vector does not grow.
  pub append_in_place :
      b.writer + length text ≤ length b.bytes
      → (b' : Buffer) × (append text b ≡ some b')
        × IsValid b'
        × (contents b' ≡ contents b ++ text)
        × (length b'.bytes ≡ length b.bytes)
        × (b'.writer ≡ b.writer + length text)
  unfolding append has_written
  append_in_place fits =
      let l = length-write_at b.bytes b.writer text in
      let w : add64 b.writer (length text) ≡ b.writer + length text = omega arith in
      let k = ensure_writable_bytes_idle (length text) b v fits in
      let m = b.writer - b.reader in
      let q : b.writer + length text - b.reader ≡ m + length text = omega arith in
      (
        record b { bytes = write_at b.bytes b.writer text; writer = b.writer + length text },
        rw (k, w) (ground (arith, l)),
        omega (arith, l),
        rw q (slice-write_end b.bytes text b.reader m b.writer (omega arith) fits),
        l,
        refl,
      )
