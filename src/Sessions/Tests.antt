-- ===== src/Sessions/Tests.antt =====
-- Sessions and nudges at concrete inputs.
use engrammic.Base.{◌+◌, ◌≤◌, ◌<◌, ◌≡◌, refl, true, false, List, [], ◌∷◌, map}
use engrammic.Sessions.{
  storage_gap, form_belief, open_reasoning, pending_markers, Nudge, format_nudge, insert_nudge,
  by_priority, prioritize_nudges, SessionState, new_session, should_show_nudge, record_nudge_shown,
  Saved,
}
use engrammic.Sessions.Debouncing.{
  Action, turns, shows, ignores, times_ignored, queries, run, should_show_nudge-run,
}

abbrev session : SessionState
session = record (new_session 5 0) { turn_count = 4 }

-- Shown at turn 4, it may be shown again at turn 7.
shown_again :
    map
      (λ n.
        should_show_nudge storage_gap
          (record (record_nudge_shown storage_gap session) { turn_count = n }))
      (4 ∷ 6 ∷ 7 ∷ [])
    ≡ false ∷ false ∷ true ∷ []
unfolding should_show_nudge record_nudge_shown
shown_again = refl

abbrev actions : List Action
actions =
    turns
    ∷ ignores storage_gap
    ∷ shows form_belief
    ∷ ignores storage_gap
    ∷ queries 1 2
    ∷ turns
    ∷ ignores storage_gap
    ∷ []

should_show_nudge-run_example :
    ((run actions (record_nudge_shown storage_gap session)).turn_count < 4 + 3
      → should_show_nudge storage_gap (run actions (record_nudge_shown storage_gap session))
        ≡ false)
    × (3 ≤ times_ignored storage_gap actions
        → should_show_nudge storage_gap (run actions session) ≡ false)
should_show_nudge-run_example = should_show_nudge-run storage_gap actions session

abbrev nudges : List Nudge
nudges =
    format_nudge open_reasoning 1 []
    ∷ format_nudge form_belief 2 []
    ∷ format_nudge pending_markers 3 []
    ∷ format_nudge storage_gap 4 []
    ∷ []

kept : map (λ n. n.prompt) (prioritize_nudges nudges) ≡ 3 ∷ 4 ∷ 2 ∷ []
unfolding prioritize_nudges by_priority insert_nudge format_nudge
kept = refl

abbrev saved : Saved
saved = ((1, 8), new_session 8 0) ∷ []
