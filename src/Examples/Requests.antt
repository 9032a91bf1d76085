-- ===== src/Examples/Requests.antt =====
-- Rate limits, at concrete times.
use hcp.Prelude.{ℕ, String, ◌≡◌, ◌≤◌, List, [], ◌∷◌, arith, length, select}
use hcp.RateLimit.{in_window}
use hcp.RateLimit.Window.{run, run_log, run_refines, passed_in_window, times_of, log_after}

-- Two keys; the last request comes a minute after the first.
abbrev requests : List (String × ℕ)
requests =
    ("org:1", 100) ∷ ("org:1", 200) ∷ ("org:2", 300) ∷ ("org:1", 400) ∷ ("org:1", 60000100) ∷ []

run_refines_example : run 2 requests (λ _. []) ≡ run_log 2 requests []
run_refines_example = run_refines 2 requests (omega arith)

passed_in_window_example :
    length (select (in_window 60000150) (times_of "org:1" (log_after 2 requests []))) ≤ 2
passed_in_window_example = passed_in_window 2 requests "org:1" 60000150 (omega arith) (omega arith)
