-- ===== src/Net/Buffer/Tests.antt =====
-- Runs of the buffer, and its theorems at concrete buffers.
use burger.Common.{ℕ, ◌^◌, ◌≡◌, refl, some, List, [], ◌∷◌, ◌++◌, arith, replicate, ◌>>=◌}
use burger.Common.{write_at, overlay}
use burger.Net.SocketsOps.{got}
use burger.Net.Buffer.{Buffer, append, make_space, ensure_writable_bytes, has_written}
use burger.Net.Buffer.Valid.{IsValid, contents}
use burger.Net.Buffer.Refine.{Call, appends, retrieves, takes, run, queue_run, run_refines}
use burger.Net.Buffer.ReadFd.{read_fd, read_fd-got}
use burger.Net.Buffer.IntLaws.{write_fields, read_fields, read_fields-write_fields}

-- "hi\r\n" behind eight spare bytes, with four free bytes.
abbrev greeting : Buffer
greeting = record {
  bytes = 0 ∷ 0 ∷ 0 ∷ 0 ∷ 0 ∷ 0 ∷ 0 ∷ 0 ∷ 104 ∷ 105 ∷ 13 ∷ 10 ∷ 0 ∷ 0 ∷ 0 ∷ 0 ∷ [];
  reader = 8;
  writer = 12;
}

abbrev empty : Buffer
empty = record { bytes = replicate 12 0; reader = 8; writer = 8 }

contents-greeting : contents greeting ≡ 104 ∷ 105 ∷ 13 ∷ 10 ∷ []
contents-greeting = refl

-- The vector grows: four free bytes do not hold five.
append-greeting :
    append (1 ∷ 2 ∷ 3 ∷ 4 ∷ 5 ∷ []) greeting
    ≡ some (record {
      bytes = 0 ∷ 0 ∷ 0 ∷ 0 ∷ 0 ∷ 0 ∷ 0 ∷ 0 ∷ 104 ∷ 105 ∷ 13 ∷ 10 ∷ 1 ∷ 2 ∷ 3 ∷ 4 ∷ 5 ∷ [];
      reader = 8;
      writer = 17;
    })
unfolding append ensure_writable_bytes make_space has_written write_at overlay
append-greeting = refl

abbrev calls : List Call
calls = takes 2 ∷ appends (1 ∷ 2 ∷ 3 ∷ 4 ∷ 5 ∷ 6 ∷ []) ∷ retrieves 3 ∷ takes 5 ∷ takes 1 ∷ []

abbrev line : List ℕ
line = 104 ∷ 105 ∷ 13 ∷ 10 ∷ []

greeting-IsValid : IsValid greeting
greeting-IsValid = omega arith

empty-IsValid : IsValid empty
empty-IsValid = omega arith

run_refines_example : run calls greeting ≡ queue_run calls line
run_refines_example = run_refines calls greeting greeting-IsValid (omega arith)

-- Six bytes arrive where four are free.
abbrev six : List ℕ
six = 1 ∷ 2 ∷ 3 ∷ 4 ∷ 5 ∷ 6 ∷ []

read_fd-got_example :
    (b : Buffer) × (read_fd (λ n. got six) greeting ≡ some (got six, b))
    × IsValid b
    × (contents b ≡ line ++ six)
read_fd-got_example = read_fd-got (λ n. got six) greeting greeting-IsValid six refl (omega arith)

read_fields-write_fields_example :
    (b : Buffer) × ((write_fields (2 ^ 40) 70000 300 5 empty >>= read_fields)
      ≡ some (2 ^ 40, 70000, 300, 5, b))
    × IsValid b
    × (contents b ≡ [])
read_fields-write_fields_example =
    read_fields-write_fields (2 ^ 40) 70000 300 5 empty (omega arith) (omega arith) (omega arith)
      (omega arith) empty-IsValid refl (omega arith)
