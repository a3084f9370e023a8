-- ===== src/Sessions.antt =====
-- engine/session_state.py: SessionState, and engine/nudges.py. Times and texts are numbers.
pub mod Debouncing
pub mod Priorities
pub mod Saving
pub mod Tests
use engrammic.Base.{
  ℕ, zero, suc, ◌+◌, ◌-◌, max, Bool, true, false, ◌&&◌, Option, none, some, List, [], ◌∷◌, ◌++◌,
  ltb, leb, ◌==◌, if◌then◌else◌, length, is_empty, take,
}

pub data NudgeType : Type 0 where
  pending_markers stale_hypothesis storage_gap form_belief relevant_context open_reasoning :
      NudgeType

-- Its place in NUDGE_PRIORITY.
abbrev pub priority_of : NudgeType → ℕ
priority_of pending_markers = 0
priority_of stale_hypothesis = 1
priority_of storage_gap = 2
priority_of form_belief = 3
priority_of relevant_context = 4
priority_of open_reasoning = 5

abbrev pub same_type : NudgeType → NudgeType → Bool
same_type a b = priority_of a == priority_of b

pub record Nudge : Type 0 where
  pub type : NudgeType
  pub prompt : ℕ
  pub about_nodes : List ℕ
  pub priority : ℕ

-- The prompt is the template with its arguments filled in.
pub format_nudge : NudgeType → ℕ → List ℕ → Nudge
format_nudge t prompt about = record {
  type = t;
  prompt = prompt;
  about_nodes = about;
  priority = priority_of t;
}

-- A stable sort by priority.
pub insert_nudge : Nudge → List Nudge → List Nudge
insert_nudge n [] = n ∷ []
insert_nudge n (m ∷ ms) = if leb n.priority m.priority then n ∷ m ∷ ms else m ∷ insert_nudge n ms

pub by_priority : List Nudge → List Nudge
unfolding insert_nudge
by_priority [] = []
by_priority (n ∷ ns) = insert_nudge n (by_priority ns)

abbrev pub max_nudges : ℕ
max_nudges = 3

pub prioritize_nudges : List Nudge → List Nudge
unfolding by_priority
prioritize_nudges ns = take max_nudges (by_priority ns)

pub record QueryRecord : Type 0 where
  pub query : ℕ
  pub timestamp : ℕ
  pub had_write : Bool

pub record SessionState : Type 0 where
  pub session_id : ℕ
  pub turn_count : ℕ
  pub last_store_turn : ℕ
  pub shown_nudges : List (NudgeType × List ℕ)
  pub ignored_nudges : List (NudgeType × ℕ)
  pub created_at : ℕ
  pub recent_queries : List QueryRecord

abbrev pub new_session : ℕ → ℕ → SessionState
new_session id now = record {
  session_id = id;
  turn_count = 0;
  last_store_turn = 0;
  shown_nudges = [];
  ignored_nudges = [];
  created_at = now;
  recent_queries = [];
}

-- `dictionary.get(type, default)`, and an assignment to a key.
abbrev pub get_or {ℓ} : {A : Type ℓ} → NudgeType → A → List (NudgeType × A) → A
get_or t d [] = d
get_or t d ((k, v) ∷ kvs) = if same_type k t then v else get_or t d kvs

abbrev pub put {ℓ} : {A : Type ℓ} → NudgeType → A → List (NudgeType × A) → List (NudgeType × A)
put t v [] = (t, v) ∷ []
put t v ((k, w) ∷ kvs) = if same_type k t then (k, v) ∷ kvs else (k, w) ∷ put t v kvs

abbrev pub maximum : List ℕ → ℕ
maximum [] = 0
maximum (x ∷ xs) = max x (maximum xs)

abbrev pub drop {ℓ} : {A : Type ℓ} → ℕ → List A → List A
drop zero xs = xs
drop (suc n) [] = []
drop (suc n) (x ∷ xs) = drop n xs

-- `xs[-n:]`
abbrev pub last_n {ℓ} : {A : Type ℓ} → ℕ → List A → List A
last_n n xs = drop (length xs - n) xs

abbrev pub debounce_ticks : ℕ
debounce_ticks = 3

abbrev pub max_ignores_before_suppress : ℕ
max_ignores_before_suppress = 3

pub should_show_nudge : NudgeType → SessionState → Bool
should_show_nudge t s =
    let shown_turns = get_or t [] s.shown_nudges in
    if leb max_ignores_before_suppress (get_or t 0 s.ignored_nudges)
    then false
    else if is_empty shown_turns
    then true
    else if ltb s.turn_count (maximum shown_turns + debounce_ticks)
    then false
    else true

pub record_nudge_shown : NudgeType → SessionState → SessionState
record_nudge_shown t s = record s {
  shown_nudges = put t (last_n 10 (get_or t [] s.shown_nudges ++ s.turn_count ∷ [])) s.shown_nudges;
}

pub record_nudge_ignored : NudgeType → SessionState → SessionState
record_nudge_ignored t s = record s {
  ignored_nudges = put t (get_or t 0 s.ignored_nudges + 1) s.ignored_nudges;
}

pub record_query : ℕ → ℕ → SessionState → SessionState
record_query query now s = record s {
  recent_queries =
      last_n 20
        (s.recent_queries ++ record { query = query; timestamp = now; had_write = false } ∷ []);
}

abbrev pub mark_last : List QueryRecord → List QueryRecord
mark_last [] = []
mark_last (q ∷ []) = record q { had_write = true } ∷ []
mark_last (q ∷ r ∷ rs) = q ∷ mark_last (r ∷ rs)

pub record_write : SessionState → SessionState
record_write s = record s { recent_queries = mark_last s.recent_queries }

-- The keys of Redis are silos with session identifiers; expiry is left out.
abbrev pub Saved : Type 0
Saved = List ((ℕ × ℕ) × SessionState)

abbrev pub same_key : ℕ × ℕ → ℕ × ℕ → Bool
same_key a b = (a.0 == b.0) && (a.1 == b.1)

pub load : ℕ × ℕ → Saved → Option SessionState
load k [] = none
load k ((j, s) ∷ saved) = if same_key j k then some s else load k saved

pub save : ℕ × ℕ → SessionState → Saved → Saved
save k s [] = (k, s) ∷ []
save k s ((j, r) ∷ saved) = if same_key j k then (j, s) ∷ saved else (j, r) ∷ save k s saved

-- `fresh` is the identifier that is made up where none is given.
pub get_or_create_session : ℕ → Option ℕ → ℕ → ℕ → Saved → SessionState × Saved
unfolding load save
get_or_create_session fresh none silo now saved =
    let s = new_session fresh now in (s, save (silo, fresh) s saved)
get_or_create_session fresh (some id) silo now saved = elim (load (silo, id) saved) [
  | some s ↦ (s, saved)
  | none ↦ (let s = new_session id now in (s, save (silo, id) s saved))
]

pub save_session : SessionState → ℕ → Saved → Saved
unfolding save
save_session s silo saved = save (silo, s.session_id) s saved

pub increment_turn : SessionState → ℕ → Saved → SessionState × Saved
unfolding save_session
increment_turn s silo saved =
    let t = record s { turn_count = s.turn_count + 1 } in (t, save_session t silo saved)
