-- ===== src/Middleware/Arrivals.antt =====
-- A limiter that keeps one bucket for every address for ever, and sequences of requests and sweeps.
use easy_host_k8s.Prelude.{ℕ, ◌≤◌, not, List, [], ◌∷◌, Bytes, bytes_eq, if◌then◌else◌}
use easy_host_k8s.Http.{HttpRequest, Answer, Handler, error_answer}
use easy_host_k8s.Prelude.{codes}
use easy_host_k8s.Middleware.{Buckets, RateLimiter, is_excluded, client_ip, cleanup, limit_rate}

-- What happens at a server: a request arrives at a time, or the table is swept.
pub data Event : Type 0 where
  arrives : ℕ → HttpRequest → Event
  sweeps : ℕ → Event

-- Times do not run backwards.
abbrev pub IsOrdered : ℕ → List Event → Type 0
IsOrdered time [] = Unit
IsOrdered time (arrives t r ∷ events) = (time ≤ t) × IsOrdered t events
IsOrdered time (sweeps t ∷ events) = (time ≤ t) × IsOrdered t events

abbrev pub put_bucket : {L : Type 0} → Bytes → L → (Bytes → L) → Bytes → L
put_bucket ip l buckets x = if bytes_eq ip x then l else buckets x

module _ {L V S : Type 0} (b : Buckets L) (next : Handler V S) where
  -- The answers to the requests of a sequence of events, and the state behind them
  unfoldable pub answers : List Event → RateLimiter L × S → List (Answer V) × S
  unfolding limit_rate cleanup
  answers [] (rl, s) = ([], s)
  answers (arrives t r ∷ events) (rl, s) =
      let (a, state) = limit_rate b t next r (rl, s) in
      let (rest, s') = answers events state in (a ∷ rest, s')
  answers (sweeps t ∷ events) (rl, s) = answers events (cleanup b t rl, s)

  -- A bucket for each address, full at first
  unfoldable pub spec_limit : ℕ → HttpRequest → (Bytes → L) × S → Answer V × ((Bytes → L) × S)
  spec_limit t r (buckets, s) =
      if is_excluded r.path
      then (let (a, s') = next r s in (a, (buckets, s')))
      else (let (allowed, l) = b.allow t (buckets (client_ip r)) in
          let buckets' = put_bucket (client_ip r) l buckets in
          if not allowed
          then (error_answer 429 (codes "Too Many Requests"), (buckets', s))
          else (let (a, s') = next r s in (a, (buckets', s'))))

  unfoldable pub spec_answers : List Event → (Bytes → L) × S → List (Answer V) × S
  unfolding spec_limit
  spec_answers [] (buckets, s) = ([], s)
  spec_answers (arrives t r ∷ events) (buckets, s) =
      let (a, state) = spec_limit t r (buckets, s) in
      let (rest, s') = spec_answers events state in (a ∷ rest, s')
  spec_answers (sweeps t ∷ events) state = spec_answers events state
