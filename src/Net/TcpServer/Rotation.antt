-- ===== src/Net/TcpServer/Rotation.antt =====
-- The order in which `getNextLoop` of burger/net/EventLoopThreadPool.cc deals out the loops.
use burger.Common.{
  ℕ, zero, suc, ◌+◌, ◌%◌, ◌<◌, ◌≡◌, refl, sym, ap, ◌∙◌, inl, inr, Option, some, List, [], ◌∷◌,
  arith, ◌>>=◌, length, get_elem?, leb, Bool-cases,
}
use native.Mathlib.Nat.{mod_self, mod-lt, mod-eq_of_lt, mod-add-mod}
use burger.Net.TcpServer.{Pool, get_next_loop}

-- The loops of that many calls, in order.
unfoldable pub deal : ℕ → Pool → Option (List ℕ × Pool)
deal zero p = some ([], p)
deal (suc k) p = do (l, p₁) ← get_next_loop p; (ls, p₂) ← deal k p₁; some (l ∷ ls, p₂)

get_elem?-some : (xs : List ℕ) (i : ℕ) → i < length xs → (x : ℕ) × (get_elem? xs i ≡ some x)
get_elem?-some [] i h = absurd (omega (arith, h))
get_elem?-some (x ∷ xs) zero h = (x, refl)
get_elem?-some (x ∷ xs) (suc i) h = get_elem?-some xs i (omega (arith, h))

get_next_loop_lem :
    (p : Pool)
    → p.next < length p.loops
    → (l : ℕ) × (get_elem? p.loops p.next ≡ some l)
      × (get_next_loop p ≡ some (l, record p { next = suc p.next % length p.loops }))
unfolding get_next_loop
get_next_loop_lem p h =
    let (l, e) = get_elem?-some p.loops p.next h in
    (
      l,
      e,
      elim (Bool-cases (leb (length p.loops) (suc p.next))) [
        | inl last ↦
            let n : suc p.next ≡ length p.loops = ground arith in
            let z : suc p.next % length p.loops ≡ 0 = rw n (mod_self (length p.loops)) in
            ground (arith, e, z)
        | inr more ↦
            let z : suc p.next % length p.loops ≡ suc p.next =
              mod-eq_of_lt {n = suc p.next} (ground arith) in
            ground (arith, e, z)
      ],
    )

here_lem : (n m : ℕ) → n < m → (n + 0) % m ≡ n
here_lem n m h = ap (λ k. k % m) (add_zero n) ∙ mod-eq_of_lt h
  where
    add_zero : (n : ℕ) → n + 0 ≡ n
    add_zero n = omega arith

suc_add : (n j : ℕ) → suc n + j ≡ n + suc j
suc_add n j = omega arith

each :
    (xs ls : List ℕ) (g : ℕ → ℕ) (l k : ℕ)
    → get_elem? xs (g 0) ≡ some l
    → ((j : ℕ) → j < k → get_elem? ls j ≡ get_elem? xs (g (suc j)))
    → (j : ℕ) → j < suc k
    → get_elem? (l ∷ ls) j ≡ get_elem? xs (g j)
each xs ls g l k e f zero h = sym e
each xs ls g l k e f (suc j) h = f j (omega (arith, h))

-- Calls of getNextLoop on a pool whose next index is in range never leave the range, and give the
-- loops in turn from that index on, round and round.
pub deal_lem :
    (k : ℕ) (p : Pool)
    → p.next < length p.loops
    → (ls : List ℕ) × (deal k p ≡ some (ls, record p { next = (p.next + k) % length p.loops }))
      × (length ls ≡ k)
      × ((j : ℕ) → j < k → get_elem? ls j ≡ get_elem? p.loops ((p.next + j) % length p.loops))
unfolding deal
deal_lem zero p h = (
  [],
  ap (λ n. some ([], record p { next = n })) (sym (here_lem p.next (length p.loops) h)),
  refl,
  λ j l. absurd (omega (arith, l)),
)
deal_lem (suc k) p h =
    let (l, e, f) = get_next_loop_lem p h in
    let n = suc p.next % length p.loops in
    let b : n < length p.loops = mod-lt (suc p.next) (omega (arith, h)) in
    let (ls, g, c, i) = deal_lem k (record p { next = n }) b in
    let m : (j : ℕ) → (n + j) % length p.loops ≡ (p.next + suc j) % length p.loops = λ j.
      mod-add-mod (suc p.next) (length p.loops) j
      ∙ ap (λ n. n % length p.loops) (suc_add p.next j) in
    (
      l ∷ ls,
      rw (f, g, m k) refl,
      ap suc c,
      each p.loops ls (λ j. (p.next + j) % length p.loops) l k
          (ap (get_elem? p.loops) (here_lem p.next (length p.loops) h) ∙ e)
          (λ j less. i j less ∙ ap (get_elem? p.loops) (m j)),
    )
