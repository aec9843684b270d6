-- ===== src/Middleware/Limits.antt =====
-- The rate limiter and its sweeps, against a limiter that keeps one bucket for every address for ever.
use easy_host_k8s.Prelude.{
  ℕ, ◌+◌, ◌≤◌, ◌<◌, ◌≡◌, refl, ◌≢◌, sym, ◌∙◌, ap, not, Option, none, some, List, [], ◌∷◌, Bytes,
  bytes_eq, bytes_eq_iff, bytes_ne, ltb, if◌then◌else◌, lookup, lookup-insert, lookup-insert_other,
  kept, lookup-retain, Distinct, insert-Distinct, retain-Distinct, arith, Bool-cases, inl, inr,
}
use easy_host_k8s.Http.{HttpRequest, Handler}
use easy_host_k8s.Middleware.{
  Buckets, VisitorEntry, RateLimiter, hour, is_excluded, client_ip, limiter_of, put_visitor,
  get_visitor, allow_visitor, cleanup, limit_rate, new_rate_limiter,
}
use easy_host_k8s.Middleware.Arrivals.{
  Event, arrives, sweeps, IsOrdered, put_bucket, answers, spec_limit, spec_answers,
}

module _ {L : Type 0} (b : Buckets L) where
  -- A limiter that was not used for more than an hour is full again: it answers as a new one does.
  abbrev pub RefillsWithinAnHour : Type 0
  RefillsWithinAnHour =
      (l : L) (t t' : ℕ)
      → t + hour < t'
      → b.allow t' (b.allow t l).1 ≡ b.allow t' (b.new_limiter 10 10)

  -- At a time, an entry or its absence stands for the bucket of its address.
  abbrev StandsFor : ℕ → Option (VisitorEntry L) → L → Type 0
  StandsFor time none l = (t : ℕ) → time ≤ t → b.allow t l ≡ b.allow t (b.new_limiter 10 10)
  StandsFor time (some v) l =
      (v.limiter ≡ l) × (v.last_seen ≤ time) × (m : L) × (l ≡ (b.allow v.last_seen m).1)

  StandsFor-later :
      (time time' : ℕ) (o : Option (VisitorEntry L)) (l : L)
      → time ≤ time'
      → StandsFor time o l
      → StandsFor time' o l
  StandsFor-later time time' none l h st = λ t h'. st t (omega (arith, h, h'))
  StandsFor-later time time' (some v) l h (e, seen, m, from) = (e, omega arith, m, from)

  record Simulates (time : ℕ) (rl : RateLimiter L) (buckets : Bytes → L) : Type 0 where
    distinct : Distinct rl.visitors
    rate_is : rl.rate ≡ 10
    burst_is : rl.burst ≡ 10
    stands : (ip : Bytes) → StandsFor time (lookup ip rl.visitors) (buckets ip)

  -- A bucket and what stands for it allow the same.
  allow-StandsFor :
      (rl : RateLimiter L) (time : ℕ) (o : Option (VisitorEntry L)) (l : L)
      → rl.rate ≡ 10
      → rl.burst ≡ 10
      → StandsFor time o l
      → b.allow time (limiter_of b rl o) ≡ b.allow time l
  allow-StandsFor rl time none l rate burst st = rw (rate, burst) (sym (st time (omega arith)))
  allow-StandsFor rl time (some v) l rate burst st = ap (λ x. b.allow time x) st.0

  kept-StandsFor :
      RefillsWithinAnHour
      → (time : ℕ) (o : Option (VisitorEntry L)) (l : L) → StandsFor time o l
      → StandsFor time (kept (λ v. not (ltb (v.last_seen + hour) time)) o) l
  kept-StandsFor refills time none l st = st
  kept-StandsFor refills time (some v) l (e, seen, m, from) =
      elim (Bool-cases (ltb (v.last_seen + hour) time)) [
        | inl idle ↦ rw (idle, StandsFor) (λ t h. rw from (refills m v.last_seen t (ground arith)))
        | inr recent ↦ rw (recent, StandsFor) (e, seen, m, from)
      ]

  lookup-put_visitor :
      (rl : RateLimiter L) (time : ℕ) (ip other : Bytes) (l l' : L)
      → lookup other (put_visitor b ip l' time (put_visitor b ip l time rl)).visitors ≡ (
          if bytes_eq ip other
          then some (record { limiter = l'; last_seen = time })
          else lookup other rl.visitors)
  lookup-put_visitor rl time ip other l l' = elim (Bool-cases (bytes_eq ip other)) [
    | inl same ↦
        let e : ip ≡ other = (bytes_eq_iff ip other).0 same in
        rw same (rw (sym e) (lookup-insert ip _ _))
    | inr different ↦
        let ne : other ≢ ip = λ e. bytes_ne ip other different (sym e) in
        rw different (lookup-insert_other ip other _ _ ne ∙ lookup-insert_other ip other _ _ ne)
  ]

  visited-StandsFor :
      (rl : RateLimiter L) (buckets : Bytes → L) (time : ℕ) (ip : Bytes) (l l' : L)
      → Simulates time rl buckets
      → l' ≡ (b.allow time (buckets ip)).1
      → (other : Bytes)
      → StandsFor time
          (lookup other (put_visitor b ip l' time (put_visitor b ip l time rl)).visitors)
          (put_bucket ip (b.allow time (buckets ip)).1 buckets other)
  visited-StandsFor rl buckets time ip l l' sim e other =
      rw (lookup-put_visitor rl time ip other l l') (elim (Bool-cases (bytes_eq ip other)) [
        | inl same ↦ rw (same, StandsFor) (e, omega arith, buckets ip, refl)
        | inr different ↦ rw (different, StandsFor) (sim.stands other)
      ])

  put_visitor-Distinct :
      (ip : Bytes) (l : L) (time : ℕ) (rl : RateLimiter L)
      → Distinct rl.visitors
      → Distinct (put_visitor b ip l time rl).visitors
  put_visitor-Distinct ip l time rl h = insert-Distinct ip _ rl.visitors h

  -- A visit: the entry and the bucket of the address allow the same, and the tables stay alike.
  allow_visitor-Simulates :
      (time : ℕ) (ip : Bytes) (rl : RateLimiter L) (buckets : Bytes → L)
      → Simulates time rl buckets
      → ((allow_visitor b time ip rl).0 ≡ (b.allow time (buckets ip)).0)
        × Simulates time
            (allow_visitor b time ip rl).1
            (put_bucket ip (b.allow time (buckets ip)).1 buckets)
  unfolding allow_visitor get_visitor
  allow_visitor-Simulates time ip rl buckets sim =
      let l = limiter_of b rl (lookup ip rl.visitors) in
      let same : b.allow time l ≡ b.allow time (buckets ip) =
        allow-StandsFor rl time (lookup ip rl.visitors) (buckets ip) sim.rate_is sim.burst_is
          (sim.stands ip) in
      (
        ap (λ r. r.0) same,
        record {
          distinct =
              put_visitor-Distinct ip (b.allow time l).1 time (put_visitor b ip l time rl)
                (put_visitor-Distinct ip l time rl sim.distinct);
          rate_is = sim.rate_is;
          burst_is = sim.burst_is;
          stands =
              visited-StandsFor rl buckets time ip l (b.allow time l).1 sim (ap (λ r. r.1) same);
        },
      )

  cleanup-Simulates :
      RefillsWithinAnHour
      → (time : ℕ) (rl : RateLimiter L) (buckets : Bytes → L) → Simulates time rl buckets
      → Simulates time (cleanup b time rl) buckets
  unfolding cleanup
  cleanup-Simulates refills time rl buckets sim = record {
    distinct = retain-Distinct _ _ sim.distinct;
    rate_is = sim.rate_is;
    burst_is = sim.burst_is;
    stands = λ ip.
        rw (lookup-retain (λ v. not (ltb (v.last_seen + hour) time)) ip _ sim.distinct)
          (kept-StandsFor refills time (lookup ip rl.visitors) (buckets ip) (sim.stands ip));
  }

  Simulates-later :
      (time time' : ℕ) (rl : RateLimiter L) (buckets : Bytes → L)
      → time ≤ time'
      → Simulates time rl buckets
      → Simulates time' rl buckets
  Simulates-later time time' rl buckets h sim = record {
    distinct = sim.distinct;
    rate_is = sim.rate_is;
    burst_is = sim.burst_is;
    stands =
        λ ip. StandsFor-later time time' (lookup ip rl.visitors) (buckets ip) h (sim.stands ip);
  }

module _ {L V S : Type 0} (b : Buckets L) (next : Handler V S) where
  -- One request: the same answer, the same state of the handler, and tables that stay alike
  limit_rate-Simulates :
      (time : ℕ) (r : HttpRequest) (rl : RateLimiter L) (buckets : Bytes → L) (s : S)
      → Simulates b time rl buckets
      → ((limit_rate b time next r (rl, s)).0 ≡ (spec_limit b next time r (buckets, s)).0)
        × ((limit_rate b time next r (rl, s)).1.1 ≡ (spec_limit b next time r (buckets, s)).1.1)
        × Simulates b time
            (limit_rate b time next r (rl, s)).1.0
            (spec_limit b next time r (buckets, s)).1.0
  unfolding limit_rate spec_limit
  limit_rate-Simulates time r rl buckets s sim =
      let (same, sim') = allow_visitor-Simulates b time (client_ip r) rl buckets sim in
      elim (Bool-cases (is_excluded r.path)) [
        | inl free ↦ rw free (refl, refl, sim)
        | inr limited ↦
            rw (limited, same)
              (elim (Bool-cases (b.allow time (buckets (client_ip r))).0) [
                | inl passes ↦ rw passes (refl, refl, sim')
                | inr stops ↦ rw stops (refl, refl, sim')
              ])
      ]

  answers-Simulates :
      RefillsWithinAnHour b
      → (time : ℕ) (events : List Event) (rl : RateLimiter L) (buckets : Bytes → L) (s : S)
      → IsOrdered time events
      → Simulates b time rl buckets
      → answers b next events (rl, s) ≡ spec_answers b next events (buckets, s)
  unfolding answers spec_answers
  answers-Simulates refills time [] rl buckets s h sim = refl
  answers-Simulates refills time (arrives t r ∷ events) rl buckets s (h, ordered) sim =
      let (same, state, sim') =
        limit_rate-Simulates t r rl buckets s (Simulates-later b time t rl buckets h sim) in
      let rest =
        answers-Simulates refills t events (limit_rate b t next r (rl, s)).1.0
          (spec_limit b next t r (buckets, s)).1.0 (limit_rate b t next r (rl, s)).1.1 ordered
          sim' in
      rw (same, rest, state) refl
  answers-Simulates refills time (sweeps t ∷ events) rl buckets s (h, ordered) sim =
      answers-Simulates refills t events (cleanup b t rl) buckets s ordered
        (cleanup-Simulates b refills t rl buckets (Simulates-later b time t rl buckets h sim))

  -- If a bucket that was left alone for more than an hour answers as a new one does, then for every
  -- sequence of requests and sweeps in the order of time, and every handler behind the limiter, the
  -- answers and the handler's final state are those of a limiter that keeps one bucket per address for
  -- ever: sweeping the table is never noticed.
  pub answers-spec_answers :
      RefillsWithinAnHour b
      → (events : List Event) (s : S) → IsOrdered 0 events
      → answers b next events (new_rate_limiter b, s)
        ≡ spec_answers b next events (λ ip. b.new_limiter 10 10, s)
  unfolding new_rate_limiter lookup
  answers-spec_answers refills events s ordered =
      answers-Simulates refills 0 events (new_rate_limiter b) (λ ip. b.new_limiter 10 10) s ordered
        (record { distinct = tt; rate_is = refl; burst_is = refl; stands = λ ip. λ t h. refl })
