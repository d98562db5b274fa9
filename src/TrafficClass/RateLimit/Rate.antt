-- ===== src/TrafficClass/RateLimit/Rate.antt =====
-- core/traffic_class.cc: the rate of a rate-limiting class over many steps.
use nfv.Base.{
  ℕ, ◌+◌, ◌-◌, ◌*◌, ◌^◌, ◌≤◌, ◌<◌, ◌≡◌, ◌≢◌, refl, sym, ap, ◌∙◌, subst, Bool, true, false, arith,
  if_split, ltb,
}
use nfv.TrafficClass.{Classes}
use nfv.TrafficClass.RateLimit.{
  RateLimit, finish_and_account, unblock, throttle, tokens_at, to_work_units,
}
use nfv.TrafficClass.RateLimit.Bucket.{
  InRange, Accounted, paid, throttled, finish_and_account-Accounted,
}

-- Steps of a class, as the scheduler makes them: one that is throttled is followed by a wakeup, at
-- the wakeup time or later. The numbers are the work units used and the times it was throttled.
pub data History (self child : ℕ) (r₀ : RateLimit) : ℕ → ℕ → RateLimit → Type 0 where
  begin : History self child r₀ 0 0 r₀
  ran :
      {used n : ℕ} {r : RateLimit} (c : Classes) (usage tsc : ℕ)
      → History self child r₀ used n r
      → InRange usage tsc r
      → (finish_and_account self child usage tsc c r).0 ≡ false
      → History self child r₀
          (used + usage * 2 ^ 32)
          n
          (finish_and_account self child usage tsc c r).2
  woken :
      {used n : ℕ} {r : RateLimit} (c c' : Classes) (usage tsc later : ℕ)
      → History self child r₀ used n r
      → InRange usage tsc r
      → (finish_and_account self child usage tsc c r).0 ≡ true
      → (finish_and_account self child usage tsc c r).2.wakeup_time ≤ later
      → History self child r₀
          (used + usage * 2 ^ 32)
          (n + 1)
          (unblock self later c'
            (record (finish_and_account self child usage tsc c r).2 { wakeup_time = 0 })).2

grow : (limit a b c : ℕ) → a + b ≤ c → limit * a + limit * b ≤ limit * c
grow limit a b c h = omega (
  arith,
  ap (λ x. limit * x) {x = c} {y = a + b + (c - (a + b))} (omega arith),
  sum limit a b (c - (a + b)),
)
  where
    sum : (l a b d : ℕ) → l * (a + b + d) ≡ l * a + l * b + l * d
    sum l a b d = grind arith

-- What is used and what is left over two spans of time.
account :
    (limit used tokens tokens₀ a b c usage tokens' : ℕ)
    → used + tokens ≤ tokens₀ + limit * a
    → tokens' + usage ≤ tokens + limit * b
    → a + b ≤ c
    → used + usage + tokens' ≤ tokens₀ + limit * c
account limit used tokens tokens₀ a b c usage tokens' p q h = omega (arith, grow limit a b c h)

module _ {self child usage tsc : ℕ} {c : Classes} {r : RateLimit} where
  paid_facts :
      (o : Bool × Classes × RateLimit)
      → Accounted self child usage tsc c r o
      → o.0 ≡ false
      → (o.2.tokens + usage * 2 ^ 32 ≤ r.tokens + r.limit * (tsc - r.last_tsc))
        × (o.2.last_tsc ≡ tsc)
  paid_facts _ (paid c' r' burst pays wakeup last) e = (pays, last)
  paid_facts _ (throttled c' r' b t w early late last) e = absurd (cc)

  throttled_facts :
      (o : Bool × Classes × RateLimit)
      → Accounted self child usage tsc c r o
      → o.0 ≡ true
      → (o.2.tokens ≡ 0)
        × (tsc ≤ o.2.wakeup_time)
        × (usage * 2 ^ 32 < r.tokens + r.limit * (o.2.wakeup_time - r.last_tsc + 1))
  throttled_facts _ (paid c' r' burst pays wakeup last) e = absurd (cc)
  throttled_facts _ (throttled c' r' b t w early late last) e = (t, w, late)

same_limit :
    (self child usage tsc : ℕ) (c : Classes) (r : RateLimit)
    → (finish_and_account self child usage tsc c r).2.limit ≡ r.limit
unfolding finish_and_account throttle
same_limit self child usage tsc c r =
    if_split (λ (o : Bool × Classes × RateLimit). o.2.limit ≡ r.limit)
      (ltb (tokens_at tsc r) (to_work_units usage)) (λ _. refl) (λ _. refl)

-- What a history has used.
abbrev pub WithinRate : RateLimit → ℕ → ℕ → RateLimit → Type 0
WithinRate r₀ used n r =
    (r.limit ≡ r₀.limit)
    × (r₀.last_tsc ≤ r.last_tsc)
    × (used + r.tokens ≤ r₀.tokens + r₀.limit * (r.last_tsc - r₀.last_tsc + n))

-- In every history of a class with a limit other than 0, whose steps are in range and in which
-- each throttled step is followed by a wakeup no earlier than the wakeup time, the work units used
-- and the tokens left are at most the tokens at the start plus the limit times the elapsed cycles
-- and one cycle for each time the class was throttled.
pub History-WithinRate :
    (self child : ℕ) (r₀ : RateLimit) {used n : ℕ} {r : RateLimit}
    → r₀.limit ≢ 0
    → History self child r₀ used n r
    → WithinRate r₀ used n r
unfolding unblock
History-WithinRate self child r₀ limited begin = (refl, omega arith, omega arith)
History-WithinRate self child r₀ limited (ran {used} {n} {r} c usage tsc history v e) =
    let before = History-WithinRate self child r₀ limited history in
    let step =
      paid_facts _
        (finish_and_account-Accounted self child usage tsc c r v (λ z. limited (sym before.0 ∙ z)))
        e in
    (
      same_limit self child usage tsc c r ∙ before.0,
      omega (arith, before.1, step.1, v.forward),
      account r₀.limit used r.tokens r₀.tokens (r.last_tsc - r₀.last_tsc + n) (tsc - r.last_tsc) _
          (usage * 2 ^ 32) _ before.2
          (subst
            (λ l.
              (finish_and_account self child usage tsc c r).2.tokens + usage * 2 ^ 32
              ≤ r.tokens + l * (tsc - r.last_tsc))
            before.0 step.0)
          (omega (arith, before.1, step.1, v.forward)),
    )
History-WithinRate self child r₀ limited
      (woken {used} {n} {r} c c' usage tsc later history v e late) =
    let before = History-WithinRate self child r₀ limited history in
    let step =
      throttled_facts _
        (finish_and_account-Accounted self child usage tsc c r v (λ z. limited (sym before.0 ∙ z)))
        e in
    let wake = (finish_and_account self child usage tsc c r).2.wakeup_time in
    (
      same_limit self child usage tsc c r ∙ before.0,
      omega (arith, before.1, step.1, v.forward, late),
      account r₀.limit used r.tokens r₀.tokens (r.last_tsc - r₀.last_tsc + n)
          (wake - r.last_tsc + 1) (later - r₀.last_tsc + (n + 1)) (usage * 2 ^ 32) _ before.2
          (subst
            (λ l.
              (finish_and_account self child usage tsc c r).2.tokens + usage * 2 ^ 32
              ≤ r.tokens + l * (wake - r.last_tsc + 1))
            before.0 (omega (arith, step.0, step.2)))
          (omega (arith, before.1, step.1, v.forward, late)),
    )
