-- ===== src/Net/RingBuffer/Tests.antt =====
-- Runs of the ring, and its theorems at concrete rings.
use burger.Common.{
  ◌≡◌, refl, inl, true, some, [], ◌∷◌, ◌++◌, arith, replicate, ◌>>=◌, write_at, overlay,
}
use burger.Net.RingBuffer.{
  Ring, init, append, make_space, make_space_at, has_written, retrieve, retrieve_as_string,
  ensure_with, append_with,
}
use burger.Net.RingBuffer.Linear.{IsLinear, contents, append-IsLinear}
use burger.Net.RingBuffer.Wrapped.{IsRound}

-- Two bytes in a ring of 24.
abbrev two : Ring
two = record {
  bytes = replicate 8 0 ++ (1 ∷ 2 ∷ replicate 22 0);
  reader = 8;
  writer = 10;
  capacity = 24;
  total = 32;
  has_data = true;
}

two-IsLinear : IsLinear two
two-IsLinear = record {
  whole = refl;
  spare = refl;
  small = omega arith;
  lead = omega arith;
  ordered = omega arith;
  inside = omega arith;
  shape = inl (refl, omega arith);
}

append-IsLinear_example :
    (r : Ring) × (append (3 ∷ 4 ∷ []) two ≡ some r) × IsLinear r × (contents r ≡ 1 ∷ 2 ∷ 3 ∷ 4 ∷ [])
append-IsLinear_example = append-IsLinear (3 ∷ 4 ∷ []) two two-IsLinear (omega arith)

-- Twenty bytes put in and fifteen taken out of a new ring of 24.
abbrev round : Ring
round = record {
  bytes = replicate 8 0 ++ (replicate 20 7 ++ replicate 4 0);
  reader = 23;
  writer = 4;
  capacity = 24;
  total = 32;
  has_data = true;
}

round_reached :
    (init 24 >>= append (replicate 20 7) >>= retrieve_as_string 15) ≡ some (replicate 15 7, round)
unfolding init append make_space make_space_at ensure_with append_with has_written retrieve
    retrieve_as_string write_at overlay
round_reached = refl

round-IsRound : IsRound round
round-IsRound = record {
  whole = refl;
  spare = refl;
  small = omega arith;
  data_held = refl;
  round = omega arith;
  room = omega arith;
  inside = omega arith;
}
