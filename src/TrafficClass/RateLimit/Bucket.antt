-- ===== src/TrafficClass/RateLimit/Bucket.antt =====
-- core/traffic_class.cc: the token bucket of a rate-limiting class.
use nfv.Base.{
  ℕ, ◌+◌, ◌-◌, ◌*◌, ◌/◌, ◌^◌, ◌≤◌, ◌<◌, ◌≡◌, ◌≢◌, refl, sym, Bool, true, false, not, update, ltb,
  ◌==◌, arith, if_split, ltb→lt, ltb→le, ne→==, ==_self, subst,
}
use nfv.Base.Words.{u64, sub64}
use nfv.TrafficClass.{Classes}
use nfv.TrafficClass.RateLimit.{RateLimit, to_work_units, tokens_at, throttle, finish_and_account}

-- No 64-bit product or sum of this step wraps around, and the clock has not gone back.
pub record InRange (usage tsc : ℕ) (r : RateLimit) : Type 0 where
  pub forward : r.last_tsc ≤ tsc
  pub tsc_lt : tsc < 2 ^ 64
  pub tokens_lt : r.tokens + r.limit * (tsc - r.last_tsc) < 2 ^ 64
  pub usage_lt : usage * 2 ^ 32 < 2 ^ 64
  pub wakeup_lt : tsc + usage * 2 ^ 32 < 2 ^ 64

-- The time that `need` tokens take to come in.
wait_lem :
    (limit need : ℕ)
    → limit ≢ 0
    → (limit * (need / limit) ≤ need) × (need < limit * (need / limit + 1))
wait_lem limit need h = grind arith

quotient_le : (need limit : ℕ) → limit ≢ 0 → need / limit ≤ need
quotient_le need limit h = grind arith

split_time : (limit a b : ℕ) → limit * (a + b) ≡ limit * a + limit * b
split_time limit a b = grind arith

module _ (self child usage tsc : ℕ) (c : Classes) (r : RateLimit) where
  -- What a step of a class with a limit comes to.
  pub data Accounted : Bool × Classes × RateLimit → Type 0 where
    paid :
        (c' : Classes) (r' : RateLimit)
        → r'.tokens ≤ r.max_burst
        → r'.tokens + usage * 2 ^ 32 ≤ r.tokens + r.limit * (tsc - r.last_tsc)
        → r'.wakeup_time ≡ r.wakeup_time
        → r'.last_tsc ≡ tsc
        → Accounted (false, c', r')
    throttled :
        (c' : Classes) (r' : RateLimit)
        → c'.blocked self ≡ true
        → r'.tokens ≡ 0
        → tsc ≤ r'.wakeup_time
        → r.tokens + r.limit * (r'.wakeup_time - r.last_tsc) ≤ usage * 2 ^ 32
        → usage * 2 ^ 32 < r.tokens + r.limit * (r'.wakeup_time - r.last_tsc + 1)
        → r'.last_tsc ≡ tsc
        → Accounted (true, c', r')

  module _ (v : InRange usage tsc r) where
    tokens_at_lem : tokens_at tsc r ≡ r.tokens + r.limit * (tsc - r.last_tsc)
    unfolding tokens_at
    tokens_at_lem =
        let e : sub64 tsc r.last_tsc ≡ tsc - r.last_tsc = omega (arith, v.forward, v.tsc_lt) in
        rw e (omega (arith, v.tokens_lt))

    module _ (limited : r.limit ≢ 0) where
      wait : ℕ
      wait = (usage * 2 ^ 32 - tokens_at tsc r) / r.limit

      bounds :
          (r.limit * wait ≤ usage * 2 ^ 32 - tokens_at tsc r)
          × (usage * 2 ^ 32 - tokens_at tsc r < r.limit * (wait + 1))
      unfolding wait
      bounds = wait_lem r.limit (usage * 2 ^ 32 - tokens_at tsc r) limited

      wakeup_lem : (throttle (to_work_units usage) (tokens_at tsc r) tsc r).wakeup_time ≡ tsc + wait
      unfolding throttle to_work_units wait
      wakeup_lem =
          let e : u64 (usage * 2 ^ 32) ≡ usage * 2 ^ 32 = omega (arith, v.usage_lt) in
          let less = quotient_le (usage * 2 ^ 32 - tokens_at tsc r) r.limit limited in
          rw (ne→== r.limit 0 limited, e) (omega (arith, v.wakeup_lt, less))

      starved :
          tokens_at tsc r < u64 (usage * 2 ^ 32)
          → Accounted (
            not (r.limit == 0),
            record c { blocked = update c.blocked self true },
            throttle (to_work_units usage) (tokens_at tsc r) tsc r,
          )
      unfolding throttle
      starved short =
          let early = split_time r.limit (tsc - r.last_tsc) wait in
          let late = split_time r.limit (tsc - r.last_tsc) (wait + 1) in
          subst
            (λ (b : Bool). Accounted (
              not b,
              record c { blocked = update c.blocked self true },
              throttle (to_work_units usage) (tokens_at tsc r) tsc r,
            ))
            (sym (ne→== r.limit 0 limited))
            (throttled (record c { blocked = update c.blocked self true })
              (throttle (to_work_units usage) (tokens_at tsc r) tsc r) (rw (==_self self) refl) refl
              (omega (arith, wakeup_lem))
              (subst (λ w. r.tokens + r.limit * (w - r.last_tsc) ≤ usage * 2 ^ 32) (sym wakeup_lem)
                (subst (λ d. r.tokens + r.limit * d ≤ usage * 2 ^ 32) {x = tsc - r.last_tsc + wait}
                  (omega (arith, v.forward))
                  (omega (arith, early, bounds, tokens_at_lem, v.usage_lt, short))))
              (subst (λ w. usage * 2 ^ 32 < r.tokens + r.limit * (w - r.last_tsc + 1))
                (sym wakeup_lem)
                (subst (λ d. usage * 2 ^ 32 < r.tokens + r.limit * d)
                  {x = tsc - r.last_tsc + (wait + 1)} (omega (arith, v.forward))
                  (omega (arith, late, bounds, tokens_at_lem, v.usage_lt, short))))
              refl)

      -- A step of a rate-limiting class with a limit other than 0, if no 64-bit operation wraps
      -- and the clock has not gone back, is either paid: then the tokens are within the burst
      -- size, and with the usage at most the tokens before plus those that came in since; or
      -- throttled: then the class is blocked without tokens, and woken at the last whole cycle by
      -- which the tokens that come in are not more than the usage.
      pub finish_and_account-Accounted : Accounted (finish_and_account self child usage tsc c r)
      unfolding finish_and_account to_work_units
      finish_and_account-Accounted =
          if_split Accounted (ltb (tokens_at tsc r) (u64 (usage * 2 ^ 32)))
            (λ t. starved (ltb→lt _ _ t))
            (λ f.
              paid _ _ (omega arith) (omega (arith, ltb→le _ _ f, tokens_at_lem, v.usage_lt)) refl
                refl)
