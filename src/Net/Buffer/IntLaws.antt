-- ===== src/Net/Buffer/IntLaws.antt =====
-- The integers of a buffer are a queue of fixed-width fields in network byte order.
use Prim.Native.Nat.{◌^◌}
use burger.Common.{
  ℕ, ◌+◌, ◌-◌, ◌≤◌, ◌<◌, ◌≡◌, sym, ◌∙◌, ap, Option, some, List, [], ◌++◌, append_assoc, append-nil,
  arith, ◌>>=◌, take, drop, length, max_size, slice, take-append_self, drop-append_self,
  length-append, take-slice,
}
use burger.Net.Endian.{host_to_network, length-host_to_network, network_to_host-host_to_network}
use burger.Net.Buffer.{Buffer, retrieve}
use burger.Net.Buffer.Valid.{IsValid, contents, length-contents, append_lem}
use burger.Net.Buffer.Queue.{retrieve_lem}
use burger.Net.Buffer.Ints.{
  peek_int, read_int, append_int, read_int64, read_int32, append_int64, append_int32, read_int16,
  append_int16, read_int8, append_int8,
}

peek_int_lem :
    (k x : ℕ) (rest : List ℕ) (b : Buffer)
    → IsValid b
    → x < 256 ^ k
    → contents b ≡ host_to_network k x ++ rest
    → peek_int k b ≡ some x
peek_int_lem k x rest b v h c =
    let l = length-host_to_network k x in
    let a = length-append (host_to_network k x) rest in
    let lc = length-contents b v in
    let m = b.writer - b.reader in
    let n : k ≤ m = omega (arith, l, a, lc, ap length c) in
    let t : slice b.bytes b.reader k ≡ host_to_network k x =
      take-slice b.bytes b.reader k m n
      ∙ ap (take k) c
      ∙ ap (λ j. take j (host_to_network k x ++ rest)) (sym l)
      ∙ take-append_self (host_to_network k x) rest in
    rw t (ground (arith, n, network_to_host-host_to_network k x h))

-- Reading a field of width `k` off the front gives its number, and the rest stays.
read_int_lem :
    (k x : ℕ) (rest : List ℕ) (b : Buffer)
    → IsValid b
    → x < 256 ^ k
    → contents b ≡ host_to_network k x ++ rest
    → (b' : Buffer) × (read_int (peek_int k) (retrieve k) b ≡ some (x, b'))
      × IsValid b'
      × (contents b' ≡ rest)
read_int_lem k x rest b v h c =
    let l = length-host_to_network k x in
    let a = length-append (host_to_network k x) rest in
    let (b', e, v', same, _) = retrieve_lem k b v (omega (arith, l, a, ap length c)) in
    (
      b',
      rw (peek_int_lem k x rest b v h c, e),
      v',
      same
          ∙ ap (drop k) c
          ∙ ap (λ j. drop j (host_to_network k x ++ rest)) (sym l)
          ∙ drop-append_self (host_to_network k x) rest,
    )

-- Writing a field puts its `k` bytes behind the content.
append_int_lem :
    (k x : ℕ) (b : Buffer)
    → IsValid b
    → length b.bytes + k < max_size
    → (b' : Buffer) × (append_int k x b ≡ some b')
      × IsValid b'
      × (contents b' ≡ contents b ++ host_to_network k x)
      × (length b'.bytes ≤ length b.bytes + k)
append_int_lem k x b v h =
    let l = length-host_to_network k x in
    let (b', e, v', same, grown, _) = append_lem (host_to_network k x) b v (omega (arith, l)) in
    (b', e, v', same, omega (arith, l, grown))

-- Four fields written one behind the other.
abbrev pub write_fields : ℕ → ℕ → ℕ → ℕ → Buffer → Option Buffer
write_fields p q r s b = do
  b₁ ← append_int64 p b
  b₂ ← append_int32 q b₁
  b₃ ← append_int16 r b₂
  append_int8 s b₃

-- Four fields read one behind the other.
abbrev pub read_fields : Buffer → Option (ℕ × ℕ × ℕ × ℕ × Buffer)
read_fields b = do
  (p, b₁) ← read_int64 b
  (q, b₂) ← read_int32 b₁
  (r, b₃) ← read_int16 b₂
  (s, b₄) ← read_int8 b₃
  some (p, q, r, s, b₄)

write_fields_eq :
    (p q r s : ℕ) (b w₁ w₂ w₃ w₄ : Buffer)
    → append_int 8 p b ≡ some w₁
    → append_int 4 q w₁ ≡ some w₂
    → append_int 2 r w₂ ≡ some w₃
    → append_int 1 s w₃ ≡ some w₄
    → write_fields p q r s b ≡ some w₄
unfolding append_int64 append_int32 append_int16 append_int8
write_fields_eq p q r s b w₁ w₂ w₃ w₄ e₁ e₂ e₃ e₄ = rw (e₁, e₂, e₃) e₄

read_fields_eq :
    (p q r s : ℕ) (b w₁ w₂ w₃ w₄ : Buffer)
    → read_int (peek_int 8) (retrieve 8) b ≡ some (p, w₁)
    → read_int (peek_int 4) (retrieve 4) w₁ ≡ some (q, w₂)
    → read_int (peek_int 2) (retrieve 2) w₂ ≡ some (r, w₃)
    → read_int (peek_int 1) (retrieve 1) w₃ ≡ some (s, w₄)
    → read_fields b ≡ some (p, q, r, s, w₄)
unfolding read_int64 read_int32 read_int16 read_int8
read_fields_eq p q r s b w₁ w₂ w₃ w₄ e₁ e₂ e₃ e₄ = rw (e₁, e₂, e₃, e₄)

-- Four integers of widths 8, 4, 2 and 1 appended to an empty valid buffer are read back in order,
-- and leave it valid and empty.
pub read_fields-write_fields :
    (p q r s : ℕ) (b : Buffer)
    → p < 2 ^ 64
    → q < 2 ^ 32
    → r < 2 ^ 16
    → s < 2 ^ 8
    → IsValid b
    → contents b ≡ []
    → length b.bytes + 15 < max_size
    → (b' : Buffer) × ((write_fields p q r s b >>= read_fields) ≡ some (p, q, r, s, b'))
      × IsValid b'
      × (contents b' ≡ [])
read_fields-write_fields p q r s b hp hq hr hs v c h =
    let P = host_to_network 8 p in
    let Q = host_to_network 4 q in
    let R = host_to_network 2 r in
    let S = host_to_network 1 s in
    let (w₁, e₁, v₁, c₁, g₁) = append_int_lem 8 p b v (omega arith) in
    let (w₂, e₂, v₂, c₂, g₂) = append_int_lem 4 q w₁ v₁ (omega (arith, g₁)) in
    let (w₃, e₃, v₃, c₃, g₃) = append_int_lem 2 r w₂ v₂ (omega (arith, g₁, g₂)) in
    let (w₄, e₄, v₄, c₄, g₄) = append_int_lem 1 s w₃ v₃ (omega (arith, g₁, g₂, g₃)) in
    let whole : contents w₄ ≡ P ++ (Q ++ (R ++ (S ++ []))) =
      simp (c₄, c₃, c₂, c₁, c, append_assoc, append-nil) in
    let (r₁, f₁, u₁, d₁) = read_int_lem 8 p (Q ++ (R ++ (S ++ []))) w₄ v₄ hp whole in
    let (r₂, f₂, u₂, d₂) = read_int_lem 4 q (R ++ (S ++ [])) r₁ u₁ hq d₁ in
    let (r₃, f₃, u₃, d₃) = read_int_lem 2 r (S ++ []) r₂ u₂ hr d₂ in
    let (r₄, f₄, u₄, d₄) = read_int_lem 1 s [] r₃ u₃ hs d₃ in
    let written = write_fields_eq p q r s b w₁ w₂ w₃ w₄ e₁ e₂ e₃ e₄ in
    (
      r₄,
      ap (λ m. m >>= read_fields) written ∙ read_fields_eq p q r s w₄ r₁ r₂ r₃ r₄ f₁ f₂ f₃ f₄,
      u₄,
      d₄,
    )
