-- ===== src/Chat/Codec/Frames.antt =====
-- What examples/chat/codec.h sends and what it makes of what arrives.
use burger.Common.{
  ℕ, zero, suc, ◌+◌, ◌-◌, ◌%◌, ◌^◌, ◌≤◌, ◌<◌, ◌≡◌, sym, ap, ◌∙◌, true, false, some, List, [], ◌∷◌,
  ◌++◌, arith, le→leb, lt→leb_false, ◌>>=◌, length, take, drop, length-append, take-append_self,
  drop-append_self, take-slice, slice, add64,
}
use burger.Net.Endian.{
  host_to_network, network_to_host, length-host_to_network, network_to_host-host_to_network,
}
use burger.Net.Buffer.{Buffer, initial_size, readable_bytes, retrieve}
use burger.Net.Buffer.Valid.{IsValid, contents, length-contents, append_lem}
use burger.Net.Buffer.Queue.{init_lem, retrieve_lem, prepend_lem}
use burger.Chat.Codec.{invalid_length, decode_loop, decode, wrap}

abbrev pub frame : List ℕ → List ℕ
frame text = host_to_network 4 (length text) ++ text

-- The frames of the messages, one behind the other, and what follows them.
abbrev pub frames : List (List ℕ) → List ℕ → List ℕ
frames [] rest = rest
frames (m ∷ ms) rest = host_to_network 4 (length m) ++ (m ++ frames ms rest)

abbrev pub AllShort : List (List ℕ) → Type 0
AllShort [] = Unit {0}
AllShort (m ∷ ms) = (length m ≤ 65536) × AllShort ms

-- Wrapping a message of fewer than 2 ^ 31 bytes gives a valid buffer whose content is its frame.
pub wrap_lem :
    (text : List ℕ)
    → length text < 2 ^ 31
    → (b : Buffer) × (wrap text ≡ some b) × IsValid b × (contents b ≡ frame text)
unfolding wrap
wrap_lem text h =
    let n = length text in
    let (o, e, vo, co, lo, ro) = init_lem initial_size (omega arith) in
    let (p, e', vp, cp, _, lead) = append_lem text o vo (omega (arith, lo)) in
    let w : n % 2 ^ 32 ≡ n = omega arith in
    let header = host_to_network 4 n in
    let k = length-host_to_network 4 n in
    let (b, e'', v, c, _) = prepend_lem 4 p vp header (sym k) (omega (arith, lead, ro)) in
    (b, rw (e, e', w) e'', v, c ∙ ap (λ s. header ++ s) (cp ∙ ap (λ s. s ++ text) co))

-- The four bytes at the reader are the header that the content begins with.
header_slice :
    (header tail : List ℕ) (b : Buffer)
    → IsValid b
    → length header ≡ 4
    → contents b ≡ header ++ tail
    → slice b.bytes b.reader 4 ≡ header
header_slice header tail b v k c =
    take-slice b.bytes b.reader 4 (b.writer - b.reader)
      (omega (arith, length-contents b v, k, length-append header tail, ap (length {0}) c))
    ∙ ap (take 4) c
    ∙ ap (λ j. take j (header ++ tail)) (sym k)
    ∙ take-append_self header tail

decode_round :
    (fuel n : ℕ) (header m : List ℕ) (b p q : Buffer)
    → 4 ≤ readable_bytes b
    → b.reader + 4 ≤ length b.bytes
    → slice b.bytes b.reader 4 ≡ header
    → network_to_host header ≡ n
    → n ≤ 65536
    → n + 4 ≤ readable_bytes b
    → retrieve 4 b ≡ some p
    → p.reader + n ≤ length p.bytes
    → slice p.bytes p.reader n ≡ m
    → retrieve n p ≡ some q
    → decode_loop (suc fuel) b ≡ (decode_loop fuel q >>= λ r. some (m ∷ r.0, r.1, r.2))
unfolding decode_loop
decode_round fuel n header m b p q h₁ h₂ t d h₃ h₄ e h₅ t' e' =
    let w : add64 n 4 ≡ n + 4 = omega arith in
    let i : invalid_length n ≡ false = ground arith in
    rw (
      le→leb 4 (readable_bytes b) h₁,
      le→leb (b.reader + 4) (length b.bytes) h₂,
      t,
      d,
      i,
      w,
      le→leb (n + 4) (readable_bytes b) h₄,
      e,
      le→leb (p.reader + n) (length p.bytes) h₅,
      t',
      e',
    )

decode_step :
    (fuel : ℕ) (m rest : List ℕ) (b : Buffer)
    → IsValid b
    → length m ≤ 65536
    → contents b ≡ host_to_network 4 (length m) ++ (m ++ rest)
    → (b' : Buffer) × IsValid b'
      × (contents b' ≡ rest)
      × (decode_loop (suc fuel) b ≡ (decode_loop fuel b' >>= λ r. some (m ∷ r.0, r.1, r.2)))
decode_step fuel m rest b v h c =
    let n = length m in
    let header = host_to_network 4 n in
    let k = length-host_to_network 4 n in
    let a = length-append header (m ++ rest) in
    let a' = length-append m rest in
    let lc = length-contents b v in
    let size = ap (length {0}) c in
    let (p, e, vp, cp, same) = retrieve_lem 4 b v (omega (arith, k, a, size)) in
    let body : contents p ≡ m ++ rest =
      cp
      ∙ ap (drop 4) c
      ∙ ap (λ j. drop j (header ++ (m ++ rest))) (sym k)
      ∙ drop-append_self header (m ++ rest) in
    let sp = ap (length {0}) body in
    let lp = length-contents p vp in
    let (q, e', vq, cq, _) = retrieve_lem n p vp (omega (arith, sp, a')) in
    let rest' : contents q ≡ rest = cq ∙ ap (drop n) body ∙ drop-append_self m rest in
    let t = header_slice header (m ++ rest) b v k c in
    let t' : slice p.bytes p.reader n ≡ m =
      take-slice p.bytes p.reader n (p.writer - p.reader) (omega (arith, lp, sp, a'))
      ∙ ap (take n) body
      ∙ take-append_self m rest in
    let d = network_to_host-host_to_network 4 n (omega arith) in
    (
      q,
      vq,
      rest',
      decode_round fuel n header m b p q (omega (arith, lc, k, a, size))
          (omega (arith, lc, k, a, size)) t d h (omega (arith, lc, k, a, a', size)) e
          (omega (arith, lp, sp, a')) t' e',
    )

-- What stops the loop with no message: no whole header, or a whole header and no whole message.
pub data Partial (rest : List ℕ) : Type 0 where
  no_header : length rest < 4 → Partial rest
  no_body :
      (n : ℕ) (part : List ℕ)
      → rest ≡ host_to_network 4 n ++ part
      → n ≤ 65536
      → length part < n
      → Partial rest

decode_stop :
    (fuel : ℕ) (rest : List ℕ) (b : Buffer)
    → IsValid b
    → contents b ≡ rest
    → Partial rest
    → decode_loop (suc fuel) b ≡ some ([], false, b)
unfolding decode_loop
decode_stop fuel rest b v c (no_header h) =
    let lc = length-contents b v in
    rw (lt→leb_false 4 (readable_bytes b) (omega (arith, lc, ap (length {0}) c)))
decode_stop fuel rest b v c (no_body n part e h₁ h₂) =
    let header = host_to_network 4 n in
    let k = length-host_to_network 4 n in
    let size = ap (length {0}) (c ∙ e) in
    let lc = length-contents b v in
    let a = length-append header part in
    let r : readable_bytes b ≡ 4 + length part = omega (arith, lc, k, a, size) in
    let t = header_slice header part b v k (c ∙ e) in
    let d = network_to_host-host_to_network 4 n (omega arith) in
    let i : invalid_length n ≡ false = ground arith in
    let w : add64 n 4 ≡ n + 4 = omega arith in
    rw (
      le→leb 4 (readable_bytes b) (omega (arith, r)),
      le→leb (b.reader + 4) (length b.bytes) (omega (arith, r)),
      t,
      d,
      i,
      w,
      lt→leb_false (n + 4) (readable_bytes b) (omega (arith, r)),
    )

decode_frames :
    (ms : List (List ℕ)) (rest : List ℕ) (fuel : ℕ) (b : Buffer)
    → IsValid b
    → AllShort ms
    → Partial rest
    → contents b ≡ frames ms rest
    → length ms < fuel
    → (b' : Buffer) × (decode_loop fuel b ≡ some (ms, false, b'))
      × IsValid b'
      × (contents b' ≡ rest)
decode_frames ms rest zero b v s p c h = elim h [ ]
decode_frames [] rest (suc fuel) b v s p c h = (b, decode_stop fuel rest b v c p, v, c)
decode_frames (m ∷ ms) rest (suc fuel) b v s p c h =
    let (q, vq, cq, e) = decode_step fuel m (frames ms rest) b v s.0 c in
    let (b', e', v', c') = decode_frames ms rest fuel q vq s.1 p cq (omega arith) in
    (b', e ∙ ap (λ o. o >>= λ r. some (m ∷ r.0, r.1, r.2)) e', v', c')

length-frames : (ms : List (List ℕ)) (rest : List ℕ) → length ms ≤ length (frames ms rest)
length-frames [] rest = omega arith
length-frames (m ∷ ms) rest = omega (
  arith,
  length-frames ms rest,
  length-append (host_to_network 4 (length m)) (m ++ frames ms rest),
  length-append m (frames ms rest),
  length-host_to_network 4 (length m),
)

-- Decoding a valid buffer that holds the frames of messages of at most 65536 bytes and then an
-- incomplete frame gives back just those messages in order, does not shut the connection down, and
-- leaves a valid buffer with the incomplete frame.
pub decode-frames_lem :
    (ms : List (List ℕ)) (rest : List ℕ) (b : Buffer)
    → IsValid b
    → AllShort ms
    → Partial rest
    → contents b ≡ frames ms rest
    → (b' : Buffer) × (decode b ≡ some (ms, false, b')) × IsValid b' × (contents b' ≡ rest)
unfolding decode
decode-frames_lem ms rest b v s p c =
    decode_frames ms rest (suc (readable_bytes b)) b v s p c
      (omega (arith, length-frames ms rest, length-contents b v, ap (length {0}) c))

-- Decoding a valid buffer that begins with a header above 65536, negative lengths among them,
-- shuts the connection down, gives no message and leaves the buffer alone.
pub decode-invalid :
    (len : ℕ) (rest : List ℕ) (b : Buffer)
    → IsValid b
    → 65536 < len
    → len < 2 ^ 32
    → contents b ≡ host_to_network 4 len ++ rest
    → decode b ≡ some ([], true, b)
unfolding decode decode_loop
decode-invalid n part b v h₁ h₂ c =
    let header = host_to_network 4 n in
    let k = length-host_to_network 4 n in
    let size = ap (length {0}) c in
    let lc = length-contents b v in
    let a = length-append header part in
    let r : readable_bytes b ≡ 4 + length part = omega (arith, lc, k, a, size) in
    let t = header_slice header part b v k c in
    let d = network_to_host-host_to_network 4 n (omega arith) in
    let i : invalid_length n ≡ true = ground arith in
    rw (
      le→leb 4 (readable_bytes b) (omega (arith, r)),
      le→leb (b.reader + 4) (length b.bytes) (omega (arith, r)),
      t,
      d,
      i,
    )
