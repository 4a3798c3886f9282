-- ===== src/Tests/Quota.antt =====
-- A quota of 100 requests, in an open window.
use gpu_watch.Prelude.{◌+◌, ◌*◌, ◌≤◌, ◌≡◌, refl, true, some, arith}
use gpu_watch.Quota.{
  Window, ApiQuota, accept, roll_window, rolled, margin_of, reserved, required_wait,
  reserve_request, next_delay,
}
use gpu_watch.Quota.Laws.{
  IsWithin, reserve_requests, required_wait-reserve_requests, next_delay-covers,
  quota_steps-IsWithin,
}

abbrev open_window : Window
open_window = record { limit = 100; remaining = 50; reset = 3600000 }

abbrev quota : ApiQuota
quota = record { window = some open_window; pages = 10; not_before = 0 }

delay_run : (next_delay 60000 0 0 quota).1 ≡ 720000
unfolding next_delay roll_window
delay_run = refl

no_wait : (required_wait 10 true 0 quota).1 ≡ 0
unfolding required_wait roll_window
no_wait = refl

required_wait-reserve_requests_example :
    (after : Window) × ((reserve_requests 10 0 (required_wait 10 true 0 quota).0).window
      ≡ some after)
    × (after.remaining + 10 ≡ (rolled 0 open_window).remaining)
    × (margin_of true open_window ≤ after.remaining)
required_wait-reserve_requests_example =
    required_wait-reserve_requests 10 true 0 quota open_window refl no_wait

next_delay-covers_example :
    (4 * 10 + reserved open_window ≤ 50) × (3600000 ≤ 0 + (4 + 1) * (next_delay 60000 0 0 quota).1)
next_delay-covers_example = next_delay-covers 60000 0 0 quota open_window refl no_wait

quota_steps-IsWithin_example :
    IsWithin (accept (some 200) (some 30) (some 5000) 4000 quota).window
    × IsWithin (reserve_request 4000 quota).window
quota_steps-IsWithin_example =
    quota_steps-IsWithin (some 200) (some 30) (some 5000) 4000 quota
      (omega arith, omega arith, omega arith)
