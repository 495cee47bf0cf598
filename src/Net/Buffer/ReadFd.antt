-- ===== src/Net/Buffer/ReadFd.antt =====
-- `Buffer::readFd` of burger/net/Buffer.cc: one `readv` into the writable bytes and a stack buffer.
use burger.Common.{
  ℕ, ◌+◌, ◌-◌, ◌<◌, ◌≡◌, ap, ◌∙◌, inl, inr, Option, some, List, ◌++◌, arith, ltb, leb,
  if◌then◌else◌, ◌>>=◌, Bool-cases, tests, max_size, add64, length, take, drop, write_at,
  write_bytes, length-take, length-drop, length-write_at, slice-write_end, take-append-drop,
  take-length, append_assoc,
}
use burger.Net.SocketsOps.{Received, got, failed}
use burger.Net.Buffer.{Buffer, writable_bytes, append}
use burger.Net.Buffer.Valid.{IsValid, contents, writable_bytes-IsValid, append_lem}

abbrev pub extra_size : ℕ
extra_size = 65536

-- The kernel fills the buffer's free bytes first, and the stack buffer with the rest.
abbrev pub deliver : List ℕ → Buffer → Option Buffer
deliver text b = do
  bytes ← write_bytes b.bytes b.writer (take (writable_bytes b) text)
  if leb (length text) (writable_bytes b)
      then some (record b { bytes = bytes; writer = add64 b.writer (length text) })
      else append (drop (writable_bytes b) text) (record b { bytes = bytes; writer = length bytes })

-- How many bytes the two parts of the vector offer to `readv`.
abbrev pub offered : Buffer → ℕ
offered b =
    if ltb (writable_bytes b) extra_size then writable_bytes b + extra_size else writable_bytes b

abbrev pub received : Received → Buffer → Option (Received × Buffer)
received (failed e) b = some (failed e, b)
received (got text) b = deliver text b >>= λ b'. some (got text, b')

-- `readv` answers for the number of bytes offered to it.
unfoldable pub read_fd : (ℕ → Received) → Buffer → Option (Received × Buffer)
read_fd readv b = received (readv (offered b)) b

module _ (readv : ℕ → Received) (b : Buffer) (v : IsValid b) where
  -- The bytes that readv delivers to a valid buffer stand behind its content in order, whether
  -- they fit the free bytes or spill into the stack buffer.
  pub read_fd-got :
      (text : List ℕ)
      → readv (offered b) ≡ got text
      → length b.bytes + length text < max_size
      → (b' : Buffer) × (read_fd readv b ≡ some (got text, b'))
        × IsValid b'
        × (contents b' ≡ contents b ++ text)
  unfolding read_fd
  read_fd-got text e fits =
      let w = writable_bytes-IsValid b v in
      let k = length b.bytes - b.writer in
      let m = b.writer - b.reader in
      let front = take k text in
      let lt = length-take k text in
      let l = length-write_at b.bytes b.writer front in
      let q : b.writer + length front - b.reader ≡ m + length front = omega (arith, lt) in
      let s = slice-write_end b.bytes front b.reader m b.writer (omega arith) (omega (arith, lt)) in
      elim (Bool-cases (leb (length text) (writable_bytes b))) [
        | inl all ↦
            let f : front ≡ text = take-length text k (omega (tests, all)) in
            let a : add64 b.writer (length text) ≡ b.writer + length text = omega arith in
            (
              record b { bytes = write_at b.bytes b.writer front; writer = b.writer + length text },
              rw (e, all, w, a) (ground (arith, lt)),
              omega (tests, all, l),
              (let q' : b.writer + length text - b.reader ≡ m + length front =
                    omega (tests, lt, all) in
                  rw q' (s ∙ ap (λ t. contents b ++ t) f)),
            )
        | inr more ↦
            let c : Buffer = record b {
              bytes = write_at b.bytes b.writer front;
              writer = length (write_at b.bytes b.writer front);
            } in
            let vc : IsValid c = omega (tests, l) in
            let (b', e', v', same, grown, _) =
              append_lem (drop k text) c vc (omega (arith, l, length-drop k text)) in
            let q' : length c.bytes - b.reader ≡ m + length front = omega (tests, lt, l, more) in
            let whole : contents c ≡ contents b ++ front = rw q' s in
            (
              b',
              rw (e, more, w) (ground (arith, lt, e')),
              v',
              same
                  ∙ ap (λ t. t ++ drop k text) whole
                  ∙ append_assoc (contents b) front (drop k text)
                  ∙ ap (λ t. contents b ++ t) (take-append-drop k text),
            )
      ]

  -- An error leaves the buffer alone.
  pub read_fd-failed :
      (errno : ℕ) → readv (offered b) ≡ failed errno → read_fd readv b ≡ some (failed errno, b)
  unfolding read_fd
  read_fd-failed errno e = rw e
