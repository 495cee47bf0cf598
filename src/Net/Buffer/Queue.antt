-- ===== src/Net/Buffer/Queue.antt =====
-- The calls of burger/net/Buffer.cc that take bytes out, put bytes in front or copy the buffer, against
-- the content as a queue of bytes.
use burger.Common.{
  ℕ, ◌+◌, ◌-◌, ◌≤◌, ◌<◌, ◌≡◌, refl, sym, ap, ◌∙◌, inl, inr, none, some, List, [], ◌++◌, arith, ltb,
  Bool-cases, tests, max_size, add64, sub64, length, drop, take, lt→leb_false, write_at,
  length-write_at, slice-write_front, take-slice, drop-slice, take-length, drop-all, resize_grow,
}
use burger.Net.Buffer.{
  Buffer, cheap_prepend, initial_size, readable_bytes, init, fresh, retrieve, retrieve_all,
  retrieve_until, retrieve_as_string, retrieve_all_as_string, prepend, shrink,
}
use burger.Net.Buffer.Valid.{
  IsValid, contents, readable_bytes-IsValid, length-contents, ensure_writable_bytes_lem,
  append_in_place, append_in_place,
}

-- A new buffer is valid and empty; its constructor's own checks hold.
pub init_lem :
    (size : ℕ)
    → size + cheap_prepend < max_size
    → (b : Buffer) × (init size ≡ some b)
      × IsValid b
      × (contents b ≡ [])
      × (length b.bytes ≡ size + cheap_prepend)
      × (b.reader ≡ cheap_prepend)
unfolding init
init_lem size h =
    let (ys, e, l, s) = resize_grow 0 (cheap_prepend + size) [] (omega arith) (omega arith) in
    let w : add64 cheap_prepend size ≡ cheap_prepend + size = omega arith in
    (fresh ys, rw (w, e) (ground (arith, l)), omega (arith, l), refl, omega (arith, l), refl)

module _ (len : ℕ) (b : Buffer) (v : IsValid b) where
  -- Taking up to all readable bytes drops them from the content; asking for more is an assertion.
  pub retrieve_lem :
      len ≤ length (contents b)
      → (b' : Buffer) × (retrieve len b ≡ some b')
        × IsValid b'
        × (contents b' ≡ drop len (contents b))
        × (b'.bytes ≡ b.bytes)
  unfolding retrieve
  retrieve_lem h = elim (Bool-cases (ltb len (readable_bytes b))) [
    | inl lt ↦
        let w : add64 b.reader len ≡ b.reader + len = omega (tests, length-contents b v, lt) in
        (
          record b { reader = b.reader + len },
          rw (lt, w) (ground (arith, length-contents b v)),
          omega (tests, length-contents b v, lt),
          drop-slice b.bytes b.reader len (b.writer - b.reader) (b.reader + len)
              (b.writer - (b.reader + len)) refl (omega arith) (omega (arith, length-contents b v)),
          refl,
        )
    | inr ge ↦ (
      retrieve_all b,
      rw ge (ground (arith, length-contents b v)),
      omega arith,
      sym (drop-all len (contents b) (omega (tests, length-contents b v, ge))),
      refl,
    )
  ]

  pub retrieve-none : length (contents b) < len → retrieve len b ≡ none
  unfolding retrieve
  retrieve-none h = rw (lt→leb_false len (readable_bytes b) (omega (arith, length-contents b v)))

  -- The bytes taken out are the first of the content, and the rest stays.
  pub retrieve_as_string_lem :
      len ≤ length (contents b)
      → (b' : Buffer) × (retrieve_as_string len b ≡ some (take len (contents b), b'))
        × IsValid b'
        × (contents b' ≡ drop len (contents b))
        × (b'.bytes ≡ b.bytes)
  unfolding retrieve_as_string
  retrieve_as_string_lem h =
      let (b', e, v', c, same) = retrieve_lem h in
      let t =
        take-slice b.bytes b.reader len (b.writer - b.reader)
          (omega (arith, length-contents b v)) in
      (b', rw (e, ← t) (ground (arith, length-contents b v)), v', c, same)

  pub retrieve_as_string-none : length (contents b) < len → retrieve_as_string len b ≡ none
  unfolding retrieve_as_string
  retrieve_as_string-none h =
      rw (lt→leb_false len (readable_bytes b) (omega (arith, length-contents b v)))

  -- Prepending as many bytes as lie before the reader puts them in front of the content.
  pub prepend_lem :
      (text : List ℕ)
      → len ≡ length text
      → len ≤ b.reader
      → (b' : Buffer) × (prepend text b ≡ some b')
        × IsValid b'
        × (contents b' ≡ text ++ contents b)
        × (b'.reader + len ≡ b.reader)
  unfolding prepend
  prepend_lem text e h =
      let r = b.reader - length text in
      let w : sub64 b.reader (length text) ≡ r = omega arith in
      let l = length-write_at b.bytes r text in
      let q : b.writer - r ≡ length text + (b.writer - b.reader) = omega arith in
      (
        record b { bytes = write_at b.bytes r text; reader = r },
        rw w (ground arith),
        omega (arith, l),
        rw q (
            slice-write_front b.bytes text r b.reader (b.writer - b.reader) (omega arith)
              (omega arith)),
        omega arith,
      )

pub retrieve_all_as_string_lem :
    (b : Buffer)
    → IsValid b
    → (b' : Buffer) × (retrieve_all_as_string b ≡ some (contents b, b'))
      × IsValid b'
      × (contents b' ≡ [])
unfolding retrieve_all_as_string
retrieve_all_as_string_lem b v =
    let n = readable_bytes b in
    let l : n ≡ length (contents b) = omega (arith, length-contents b v) in
    let (b', e, v', c, same) = retrieve_as_string_lem n b v (omega (arith, l)) in
    (
      b',
      e ∙ ap (λ s. some (s, b')) (take-length (contents b) n (omega (arith, l))),
      v',
      c ∙ drop-all n (contents b) (omega (arith, l)),
    )

-- On a valid buffer retrieving up to a pointer into the readable bytes drops just the bytes before
-- it.
pub retrieve_until_lem :
    (end : ℕ) (b : Buffer)
    → IsValid b
    → b.reader ≤ end
    → end ≤ b.writer
    → (b' : Buffer) × (retrieve_until end b ≡ some b')
      × IsValid b'
      × (contents b' ≡ drop (end - b.reader) (contents b))
unfolding retrieve_until
retrieve_until_lem end b v lo hi =
    let w : sub64 end b.reader ≡ end - b.reader = omega arith in
    let (b', e, v', c, same) =
      retrieve_lem (end - b.reader) b v (omega (arith, length-contents b v)) in
    (b', rw w (ground (arith, e)), v', c)

-- Shrinking a valid buffer succeeds, keeps its content and leaves the room asked for, if the sizes
-- stay below the bound.
pub shrink_lem :
    (reserve : ℕ) (b : Buffer)
    → IsValid b
    → length b.bytes + reserve + initial_size + cheap_prepend < max_size
    → (b' : Buffer) × (shrink reserve b ≡ some b')
      × IsValid b'
      × (contents b' ≡ contents b)
      × (reserve ≤ length b'.bytes - b'.writer)
unfolding shrink
shrink_lem reserve b v h =
    let (o, e, vo, co, lo, _) = init_lem initial_size (omega arith) in
    let n = b.writer - b.reader in
    let r = readable_bytes-IsValid b v in
    let w : add64 n reserve ≡ n + reserve = omega arith in
    let (p, e', room) = ensure_writable_bytes_lem (n + reserve) o vo (omega (arith, lo)) in
    let l = length-contents b v in
    let (b', a, v', c, lb, wb) =
      append_in_place (contents b) p room.valid (omega (arith, l, room)) in
    (
      b',
      rw (e, r, w, e') (ground (arith, a)),
      v',
      c ∙ ap (λ s. s ++ contents b) (room.same ∙ co),
      omega (arith, room, l, lb, wb),
    )
