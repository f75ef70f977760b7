-- ===== src/Worker/Select/Window.antt =====
-- The rating window of selectGroup.
use matchmaking.Shared.{ℕ, ◌+◌, ◌-◌, ◌*◌, ◌/◌, ◌≤◌, ◌<◌, ◌≡◌, arith, min}
use matchmaking.Shared.Int.{add32, scale32, ℤ, pos, ◌≤ℤ◌}
use matchmaking.Model.{Time}
use matchmaking.Worker.Select.{
  cap_window, wait_seconds, rating_window, rating_diff, nanos_per_second,
}

-- An entry queued no later than now and less than 13 years ago has the window min(300, 50 + 5 s)
-- after s whole seconds.
pub rating_window_exact :
    (now enqueued : Time)
    → enqueued ≤ now
    → now - enqueued < 400000000 * nanos_per_second
    → rating_window now enqueued ≡ pos (min 300 (50 + 5 * ((now - enqueued) / nanos_per_second)))
unfolding rating_window
rating_window_exact now enqueued h k = ground arith

-- Ratings that are not negative differ by their distance: nothing wraps.
pub rating_diff_exact :
    (a b : ℕ)
    → a < 2147483648
    → b < 2147483648
    → rating_diff (pos a) (pos b) ≡ pos ((a - b) + (b - a))
unfolding rating_diff
rating_diff_exact a b h k = ground arith

cap_window-le : (w : ℤ) → cap_window w ≤ℤ pos 300
unfolding cap_window
cap_window-le w = ground arith

-- The window never passes 300, whatever the clock says.
pub rating_window-le : (now enqueued : Time) → rating_window now enqueued ≤ℤ pos 300
unfolding rating_window
rating_window-le now enqueued =
    cap_window-le (add32 (pos 50) (scale32 5 (wait_seconds now enqueued)))
