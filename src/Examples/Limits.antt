-- ===== src/Examples/Limits.antt =====
-- A limiter with whole tokens, and requests around a sweep.
use easy_host_k8s.Prelude.{
  ℕ, zero, suc, ◌+◌, ◌≡◌, refl, Bool, true, false, List, [], ◌∷◌, codes, ltb, if◌then◌else◌, arith,
}
use easy_host_k8s.Http.{HttpRequest, error_answer, Handler}
use easy_host_k8s.Middleware.{Buckets, hour, new_rate_limiter}
use easy_host_k8s.Middleware.Limits.{RefillsWithinAnHour, answers-spec_answers}
use easy_host_k8s.Middleware.Arrivals.{Event, arrives, sweeps, answers, spec_answers}
use easy_host_k8s.Examples.Requests.{request}

-- Tokens, and the time of the last call
abbrev Tank : Type 0
Tank = ℕ × ℕ

abbrev spend : ℕ → ℕ → Bool × Tank
spend time zero = (false, (0, time))
spend time (suc n) = (true, (n, time))

-- Every call takes a token; an hour fills the tank.
abbrev buckets : Buckets Tank
buckets = record {
  new_limiter = λ rate burst. (10, 0);
  allow = λ time (n, last). spend time (if ltb (last + hour) time then 10 else n);
}

spend-last : (time n : ℕ) → (spend time n).1.1 ≡ time
spend-last time zero = refl
spend-last time (suc n) = refl

buckets-Refills : RefillsWithinAnHour buckets
buckets-Refills (n, last) t t' idle =
    let at = spend-last t (if ltb (last + hour) t then 10 else n) in ground (arith, at, idle)

abbrev visit : HttpRequest
visit = record request { path = codes "/s/docs" }

-- A handler that counts
abbrev counting : Handler (Unit {0}) ℕ
counting r n = (error_answer 200 (codes "ok"), suc n)

abbrev events : List Event
events = arrives 5 visit ∷ sweeps 6 ∷ arrives 7 visit ∷ sweeps (8 + (hour + hour)) ∷ []

answers-spec_answers_example :
    answers buckets counting events (new_rate_limiter buckets, 0)
    ≡ spec_answers buckets counting events (λ ip. (10, 0), 0)
answers-spec_answers_example =
    answers-spec_answers buckets counting buckets-Refills events 0
      (omega arith, (omega arith, (omega arith, (omega arith, tt))))
