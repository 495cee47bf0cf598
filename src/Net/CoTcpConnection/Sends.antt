-- ===== src/Net/CoTcpConnection/Sends.antt =====
-- burger/net/CoTcpConnection.cc: what a send sends, over any answers of the kernel, and over the answer that
-- burger/net/Hook.cc makes up once the processor has stopped.
use burger.Common.{
  ℕ, zero, suc, min, ◌+◌, ◌-◌, ◌≤◌, ◌<◌, ◌^◌, ◌≡◌, ◌≢◌, refl, ap, ◌∙◌, true, false, Option, none,
  List, [], ◌∷◌, ◌++◌, if◌then◌else◌, arith, leb, ◌==◌, sub64, length, take, le→leb, lt→leb_false,
  if_true, if_false, length-append,
}
use burger.Net.SocketsOps.{Sent, wrote, refused}
use burger.Net.CoTcpConnection.{
  CoTcpConnection, Out, Status, finished, out, ewouldblock, write_loop, send_in_proc, send_message,
  send,
}

-- A `write` of `size` bytes takes no more than these.
abbrev pub Honest : List Sent → ℕ → Type 0
Honest answers zero = Unit
Honest [] (suc size) = Unit
Honest (wrote n ∷ answers) (suc size) = (n ≤ suc size) × Honest answers (suc size - n)
Honest (refused e ∷ answers) (suc size) = Honest answers (suc size)

-- The bytes that the answers take before one is an error other than EWOULDBLOCK.
abbrev pub total : List Sent → ℕ
total [] = 0
total (wrote n ∷ answers) = n + total answers
total (refused e ∷ answers) = let rest = total answers in if e == ewouldblock then rest else 0

-- How a loop ends that is to send `size` bytes.
abbrev Ends : ℕ → ℕ → Status → Type 0
Ends size taken st = (size ≤ taken → st ≡ finished) × (taken < size → st ≢ finished)

-- A loop that was to send `size` bytes of `from`, of which `taken` were taken.
abbrev Sends : Option Out → List ℕ → ℕ → List ℕ → ℕ → Type 0
Sends result sent size from taken =
    (st : Status) × (result ≡ out st (sent ++ take (min size taken) from)) × Ends size taken st

write_outside :
    (next : Sent) (answers : List Sent) (memory : List ℕ) (start size : ℕ) (sent : List ℕ)
    → length memory < start + suc size
    → write_loop (next ∷ answers) memory start (suc size) sent ≡ none
unfolding write_loop
write_outside (wrote n) answers memory start size sent h =
    if_false (leb (start + suc size) (length memory)) _ none
      (lt→leb_false (start + suc size) (length memory) h)
write_outside (refused e) answers memory start size sent h =
    if_false (leb (start + suc size) (length memory)) _ none
      (lt→leb_false (start + suc size) (length memory) h)

-- `sendSize` goes round zero.
write_wraps :
    (answers : List Sent) (next : Sent) (memory : List ℕ) (size : ℕ)
    → length memory ≡ size + 1
    → 0 < size
    → size < 8
    → write_loop (wrote 8 ∷ next ∷ answers) memory 0 size [] ≡ none
unfolding write_loop
write_wraps answers next memory zero l k h = absurd (omega arith)
write_wraps answers next memory (suc size) l k h =
    let e : sub64 (suc size) 8 ≡ suc (size + 2 ^ 64 - 8) = omega arith in
    let sent = [] ++ take 8 (take (suc size) memory) in
    if_true (leb (0 + suc size) (length memory)) _ none
      (le→leb (0 + suc size) (length memory) (omega (arith, l)))
    ∙ ap (λ n. write_loop (next ∷ answers) memory 8 n sent) e
    ∙ write_outside next answers memory 8 (size + 2 ^ 64 - 8) sent (omega (arith, l))

-- When write answers 8 for a message of 1 to 7 bytes, as the hook does once the processor has
-- stopped, the size that is left wraps round zero, and the next write reads outside the message.
pub send_stopped :
    (answers : List Sent) (next : Sent) (message : List ℕ) (c : CoTcpConnection)
    → c.quit ≡ false
    → 0 < length message
    → length message < 8
    → send true (wrote 8 ∷ next ∷ answers) message c ≡ none
unfolding send send_message send_in_proc
send_stopped answers next message c q k h =
    let memory = message ++ 0 ∷ [] in
    rw (q, write_wraps answers next memory (length message) (length-append message (0 ∷ [])) k h)
      refl
