-- ===== src/TrafficClass/RateLimit/Examples.antt =====
-- The token bucket of core/traffic_class.cc at a concrete class.
use nfv.Base.{◌+◌, ◌*◌, ◌^◌, refl, false, arith, some}
use nfv.TrafficClass.{Classes}
use nfv.TrafficClass.RateLimit.{
  RateLimit, finish_and_account, unblock, throttle, tokens_at, to_work_units,
}
use nfv.TrafficClass.RateLimit.Rate.{History, begin, woken, WithinRate, History-WithinRate}
use nfv.TrafficClass.RateLimit.Bucket.{InRange, Accounted, finish_and_account-Accounted}

abbrev classes : Classes
classes = record { parent = λ child. some 0; blocked = λ child. false }

abbrev bucket : RateLimit
bucket = record {
  limit = 1000;
  limit_arg = 0;
  max_burst = 2 ^ 33;
  max_burst_arg = 2;
  tokens = 5000;
  last_tsc = 100;
  wakeup_time = 0;
  cnt_throttled = 0;
  child = some 1;
}

step-InRange : InRange 1 200 bucket
step-InRange = record {
  forward = omega arith;
  tsc_lt = omega arith;
  tokens_lt = omega arith;
  usage_lt = omega arith;
  wakeup_lt = omega arith;
}

-- One unit of the resource is more than the bucket has.
finish_and_account-Accounted_example :
    Accounted 0 1 1 200 classes bucket (finish_and_account 0 1 1 200 classes bucket)
finish_and_account-Accounted_example =
    finish_and_account-Accounted 0 1 1 200 classes bucket step-InRange (omega arith)

abbrev after_wakeup : RateLimit
after_wakeup =
    (unblock 0 5000000 classes
      (record (finish_and_account 0 1 1 200 classes bucket).2 { wakeup_time = 0 })).2

throttled_once : History 0 1 bucket (0 + 1 * 2 ^ 32) (0 + 1) after_wakeup
unfolding finish_and_account throttle tokens_at to_work_units
throttled_once = woken classes classes 1 200 5000000 begin step-InRange refl (omega arith)

History-WithinRate_example : WithinRate bucket (0 + 1 * 2 ^ 32) (0 + 1) after_wakeup
History-WithinRate_example = History-WithinRate 0 1 bucket (omega arith) throttled_once
