-- ===== src/Traffic/Admission/Examples.antt =====
-- Runs of the admission controller, and its theorems at concrete requests.
use rs_llmctl.Base.{
  ℕ, ◌+◌, ◌≤◌, max, ◌≡◌, refl, String, List, [], ◌∷◌, length, if◌then◌else◌, str_eq,
}
use rs_llmctl.Traffic.Admission.{refused, busy, new, ensure, available_permits, try_acquire_for_all}
use rs_llmctl.Base.Semaphore.{counter}
use rs_llmctl.Traffic.Admission.Limits.{
  Event, request, finished, history, start, total, history-limits,
}
use rs_llmctl.Base.Map
use rs_llmctl.Traffic.Admission.Capacity.{Agrees}

abbrev team_and_subject : List (String × ℕ)
team_and_subject = ("team:a", 2) ∷ ("subject:x", 1) ∷ []

refused_when_full :
    (try_acquire_for_all counter team_and_subject
      (try_acquire_for_all counter team_and_subject (new counter 8)).0).1
    ≡ refused busy
unfolding try_acquire_for_all new ensure Map.get Map.insert counter
refused_when_full = refl

abbrev limits : String → ℕ
limits s = if str_eq s "team:a" then 2 else 1

abbrev events : List Event
events =
    request team_and_subject ∷ request team_and_subject ∷ finished 0 ∷ request team_and_subject ∷ []

agrees : Agrees limits team_and_subject
agrees = (refl, (refl, tt))

history-limits_example :
    (total "team:a" (history counter (start counter 8) events).live ≤ limits "team:a")
    × (length (history counter (start counter 8) events).live
          + available_permits counter (history counter (start counter 8) events).controller
        ≡ max 8 1)
history-limits_example =
    history-limits counter limits 8 events "team:a" (agrees, (agrees, (agrees, tt)))
