-- ===== src/Net/Connector/Backoff.antt =====
-- The delays of `retry` of burger/net/Connector.cc.
use burger.Common.{
  ℕ, zero, suc, ◌*◌, ◌^◌, ◌≡◌, sym, ◌∙◌, true, List, [], ◌∷◌, ◌++◌, arith, min, length,
  append_assoc, append-nil, ap, if_true,
}
use burger.Net.Connector.{Connector, retry, max_retry_delay_ms, init_retry_delay_ms}

unfoldable pub retry_all : List ℕ → Connector → Connector
retry_all [] c = c
retry_all (fd ∷ fds) c = retry_all fds (retry fd c)

abbrev pub backoff : ℕ → ℕ
backoff k = min (init_retry_delay_ms * 2 ^ k) max_retry_delay_ms

unfoldable pub schedule : ℕ → ℕ → List ℕ
schedule k zero = []
schedule k (suc n) = backoff k ∷ schedule (suc k) n

backoff-suc : (k : ℕ) → min (backoff k * 2) max_retry_delay_ms ≡ backoff (suc k)
backoff-suc k = ground arith

-- Retries in a row, from a connector that is to connect and whose delay is the k-th of the
-- back-off, wait for the k-th and the following delays of the back-off, where the n-th is the
-- smaller of 500 * 2 ^ n and 30000 milliseconds.
pub retry_all-schedule :
    (fds : List ℕ) (c : Connector) (k : ℕ)
    → c.connect ≡ true
    → c.delay ≡ backoff k
    → (retry_all fds c).timers ≡ c.timers ++ schedule k (length fds)
unfolding retry_all retry schedule
retry_all-schedule [] c k on d = sym (append-nil c.timers)
retry_all-schedule (fd ∷ fds) c k on d =
    let e : (retry fd c).timers ≡ c.timers ++ (backoff k ∷ []) =
      ap (λ (b : Connector). b.timers) (if_true c.connect _ _ on)
      ∙ ap (λ d. c.timers ++ (d ∷ [])) d in
    let f : (retry fd c).delay ≡ backoff (suc k) =
      ap (λ (b : Connector). b.delay) (if_true c.connect _ _ on)
      ∙ ap (λ d. min (d * 2) max_retry_delay_ms) d
      ∙ backoff-suc k in
    let g : (retry fd c).connect ≡ true =
      ap (λ (b : Connector). b.connect) (if_true c.connect _ _ on) ∙ on in
    retry_all-schedule fds (retry fd c) (suc k) g f
    ∙ ap (λ ts. ts ++ schedule (suc k) (length fds)) e
    ∙ append_assoc c.timers (backoff k ∷ []) (schedule (suc k) (length fds))
