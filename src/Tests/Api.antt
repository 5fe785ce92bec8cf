-- ===== src/Tests/Api.antt =====
-- api/rate_limit.py at concrete clients and times.
use agent_roi_console.Common.{
  ◌<◌, ◌≡◌, ◌↔◌, refl, true, false, [], ◌∷◌, ◌++◌, none, some, arith, length, ltb, if◌then◌else◌,
}
use agent_roi_console.Common.Dict.{contains, lookup, insert}
use agent_roi_console.Float.{float}
use agent_roi_console.Float.Scaled.{ℤ, pos, scaled}
use agent_roi_console.Api.{SlidingWindow, new, check, prune, recent_hits}
use agent_roi_console.Api.Hits.{IsLimited, IsUnique, counted, check-IsLimited, check_iff}

-- Two requests in 60 seconds.
abbrev window : SlidingWindow ℤ
window = record {
  limit = 2;
  window_seconds = pos 60;
  hits = ("10.0.0.1", pos 100 ∷ pos 130 ∷ []) ∷ ("10.0.0.2", pos 20 ∷ []) ∷ [];
}

refused_run : (check (pos 150) "10.0.0.1" window).0 ≡ some (false, pos 10)
unfolding check prune recent_hits lookup insert
refused_run = refl

allowed_run : (check (pos 161) "10.0.0.1" window).1.hits ≡ ("10.0.0.1", pos 130 ∷ pos 161 ∷ []) ∷ []
unfolding check prune recent_hits lookup insert
allowed_run = refl

-- A limit of 0 meets an `IndexError`.
zero_limit_run : (check (pos 5) "10.0.0.1" (new 0 (pos 60))).0 ≡ none
unfolding check new prune recent_hits lookup insert
zero_limit_run = refl

check-IsLimited_example : IsLimited (check (pos 161) "10.0.0.1" window).1
check-IsLimited_example =
    check-IsLimited (pos 161) "10.0.0.1" window (omega arith, (omega arith, tt))

window-IsUnique : IsUnique window.hits
unfolding contains
window-IsUnique = (refl, (refl, tt))

check_iff_example :
    let recent = counted (pos 101) "10.0.0.1" window.hits in
    (((check (pos 161) "10.0.0.1" window).0 ≡ some (true, float 0)) ↔ (length recent < 2))
    × (lookup "10.0.0.1" (check (pos 161) "10.0.0.1" window).1.hits
        ≡ some (if ltb (length recent) 2 then recent ++ pos 161 ∷ [] else recent))
    × IsUnique (check (pos 161) "10.0.0.1" window).1.hits
check_iff_example = check_iff (pos 161) "10.0.0.1" window window-IsUnique
