-- ===== src/Engine/Drain/Tests.antt =====
-- A drain with one job to work off, and one whose runs are used up.
use chimpbase.Prelude.{◌+◌, ◌≡◌, refl, Bool, true, none, leb}
use chimpbase.Prelude.Result.{ok}
use chimpbase.Engine.{Run}
use chimpbase.Engine.Tests.{idle_engine}
use chimpbase.Engine.Drain.{idle, drain}
use chimpbase.Engine.Drain.Stops

-- Works for the first three milliseconds, and takes one each time.
abbrev early : Run Bool
early s = (ok (leb s.now 1002), record s { now = s.now + 1 })

two_of_each :
    (drain early early none 9 idle_engine).0
    ≡ ok (record { cron_schedules = 2; queue_jobs = 1; is_idle = true; stop_reason = idle })
unfolding drain
two_of_each = refl
