-- ===== src/Sessions/Debouncing.antt =====
-- When a nudge is shown again.
use engrammic.Base.{
  ℕ, zero, suc, ◌+◌, ◌-◌, ◌≤◌, ◌<◌, ◌≡◌, refl, sym, ◌∙◌, ◌≢◌, ◌⊎◌, inl, inr, Bool, true, false,
  List, [], ◌∷◌, ◌++◌, arith, ◌==◌, if◌then◌else◌, ==_self, Bool-cases, length, is_empty,
  length-append,
}
use engrammic.Sessions.{
  NudgeType, priority_of, same_type, SessionState, get_or, put, maximum, drop, last_n,
  should_show_nudge, record_nudge_shown, record_nudge_ignored, record_query, record_write,
}

-- What is done with a session: a turn, a nudge shown or ignored, a query or a write recorded.
pub data Action : Type 0 where
  turns : Action
  shows ignores : NudgeType → Action
  queries : ℕ → ℕ → Action
  stores : Action

abbrev pub act : Action → SessionState → SessionState
act turns s = record s { turn_count = s.turn_count + 1 }
act (shows t) s = record_nudge_shown t s
act (ignores t) s = record_nudge_ignored t s
act (queries q now) s = record_query q now s
act stores s = record_write s

abbrev pub run : List Action → SessionState → SessionState
run [] s = s
run (a ∷ more) s = run more (act a s)

==-swap : (a b c : ℕ) → (a == b) ≡ true → (a == c) ≡ (b == c)
==-swap a b c h = ground arith

==-right : (a b c : ℕ) → (a == b) ≡ true → (c == b) ≡ (c == a)
==-right a b c h = ground arith

==-apart : (a b c : ℕ) → (a == b) ≡ false → (a == c) ≡ true → (b == c) ≡ false
==-apart a b c h k = ground arith

module _ {ℓ} {A : Type ℓ} where
  if_if : (b : Bool) (v w x : A) → (if b then v else x) ≡ (if b then v else if b then w else x)
  if_if true v w x = refl
  if_if false v w x = refl

  get_or-put :
      (t k : NudgeType) (d v : A) (kvs : List (NudgeType × A))
      → get_or t d (put k v kvs) ≡ (if same_type k t then v else get_or t d kvs)
  get_or-put t k d v [] = refl
  get_or-put t k d v ((j, w) ∷ kvs) = elim (Bool-cases (same_type j k)) [
    | inl same ↦
        rw (same, sym (==-swap (priority_of j) (priority_of k) (priority_of t) same))
          (if_if (same_type j t) v w (get_or t d kvs))
    | inr other ↦ elim (Bool-cases (same_type j t)) [
      | inl hit ↦
          rw (other, hit, ==-apart (priority_of j) (priority_of k) (priority_of t) other hit) refl
      | inr miss ↦ rw (other, miss) (get_or-put t k d v kvs)
    ]
  ]

  drop-snoc :
      (n : ℕ) (xs : List A) (x : A) → n ≤ length xs → drop n (xs ++ x ∷ []) ≡ drop n xs ++ x ∷ []
  drop-snoc zero xs x h = refl
  drop-snoc (suc n) [] x h = absurd (omega arith)
  drop-snoc (suc n) (y ∷ ys) x h = drop-snoc n ys x (omega arith)

maximum-snoc : (xs : List ℕ) (x : ℕ) → x ≤ maximum (xs ++ x ∷ [])
maximum-snoc [] x = omega arith
maximum-snoc (y ∷ ys) x = omega (arith, maximum-snoc ys x)

is_empty-snoc : (xs : List ℕ) (x : ℕ) → is_empty (xs ++ x ∷ []) ≡ false
is_empty-snoc [] x = refl
is_empty-snoc (y ∷ ys) x = refl

true-ne-false : true ≢ false
true-ne-false = λ e. cc

-- The last turn is never cut off.
last_n-snoc :
    (xs : List ℕ) (x : ℕ)
    → (x ≤ maximum (last_n 10 (xs ++ x ∷ []))) × (is_empty (last_n 10 (xs ++ x ∷ [])) ≡ false)
last_n-snoc xs x =
    rw (drop-snoc (length (xs ++ x ∷ []) - 10) xs x (omega (arith, length-append xs (x ∷ []))))
      (maximum-snoc (drop (length (xs ++ x ∷ []) - 10) xs) x, is_empty-snoc _ x)

-- Shown at the turn `n` or later, which has been reached.
record WasShown (t : NudgeType) (n : ℕ) (s : SessionState) : Type 0 where
  recent : n ≤ maximum (get_or t [] s.shown_nudges)
  recorded : is_empty (get_or t [] s.shown_nudges) ≡ false
  passed : n ≤ s.turn_count

module _ (t : NudgeType) (n : ℕ) where
  record_nudge_shown-WasShown :
      (k : NudgeType) (s : SessionState)
      → n ≤ s.turn_count
      → (same_type k t ≡ true) ⊎ WasShown t n s
      → WasShown t n (record_nudge_shown k s)
  unfolding record_nudge_shown
  record_nudge_shown-WasShown k s h w = elim (Bool-cases (same_type k t)) [
    | inl same ↦ record {
      recent =
          rw (get_or-put t k [] new s.shown_nudges, same)
            (omega (arith, (last_n-snoc old s.turn_count).0));
      recorded = rw (get_or-put t k [] new s.shown_nudges, same) ((last_n-snoc old s.turn_count).1);
      passed = h;
    }
    | inr other ↦ elim w [
      | inl same ↦ absurd (true-ne-false (sym same ∙ other))
      | inr shown ↦ record {
        recent = rw (get_or-put t k [] new s.shown_nudges, other) shown.recent;
        recorded = rw (get_or-put t k [] new s.shown_nudges, other) shown.recorded;
        passed = h;
      }
    ]
  ]
    where
      old : List ℕ
      old = get_or k [] s.shown_nudges

      new : List ℕ
      new = last_n 10 (old ++ s.turn_count ∷ [])

  act-WasShown : (a : Action) (s : SessionState) → WasShown t n s → WasShown t n (act a s)
  unfolding record_nudge_ignored record_query record_write
  act-WasShown turns s h = record {
    recent = h.recent;
    recorded = h.recorded;
    passed = omega (arith, h.passed);
  }
  act-WasShown (shows k) s h = record_nudge_shown-WasShown k s h.passed (inr h)
  act-WasShown (ignores k) s h = record {
    recent = h.recent;
    recorded = h.recorded;
    passed = h.passed;
  }
  act-WasShown (queries q now) s h = record {
    recent = h.recent;
    recorded = h.recorded;
    passed = h.passed;
  }
  act-WasShown stores s h = record { recent = h.recent; recorded = h.recorded; passed = h.passed }

  run-WasShown :
      (more : List Action) (s : SessionState) → WasShown t n s → WasShown t n (run more s)
  run-WasShown [] s h = h
  run-WasShown (a ∷ more) s h = run-WasShown more (act a s) (act-WasShown a s h)

  debounced :
      (s : SessionState) → WasShown t n s → s.turn_count < n + 3 → should_show_nudge t s ≡ false
  unfolding should_show_nudge
  debounced s w h = ground (arith, w.recent, w.recorded)

get_or-same :
    (t k : NudgeType) (d : ℕ) (kvs : List (NudgeType × ℕ))
    → same_type k t ≡ true
    → get_or t d kvs ≡ get_or k d kvs
get_or-same t k d [] h = refl
get_or-same t k d ((j, v) ∷ kvs) h =
    rw (==-right (priority_of k) (priority_of t) (priority_of j) h, get_or-same t k d kvs h) refl

-- How often the nudge was ignored among these actions.
abbrev pub times_ignored : NudgeType → List Action → ℕ
times_ignored t [] = 0
times_ignored t (ignores k ∷ more) =
    let rest = times_ignored t more in if same_type k t then suc rest else rest
times_ignored t (turns ∷ more) = times_ignored t more
times_ignored t (shows k ∷ more) = times_ignored t more
times_ignored t (queries q now ∷ more) = times_ignored t more
times_ignored t (stores ∷ more) = times_ignored t more

ignored-record_nudge_ignored :
    (t k : NudgeType) (s : SessionState)
    → get_or t 0 (record_nudge_ignored k s).ignored_nudges
      ≡ (if same_type k t then get_or t 0 s.ignored_nudges + 1 else get_or t 0 s.ignored_nudges)
unfolding record_nudge_ignored
ignored-record_nudge_ignored t k s =
    rw (get_or-put t k 0 (get_or k 0 s.ignored_nudges + 1) s.ignored_nudges)
      (elim (Bool-cases (same_type k t)) [
        | inl same ↦ rw same (omega (arith, get_or-same t k 0 s.ignored_nudges same))
        | inr other ↦ rw other refl
      ])

-- The counter of a nudge counts how often it was ignored.
ignored-run :
    (t : NudgeType) (more : List Action) (s : SessionState)
    → get_or t 0 (run more s).ignored_nudges ≡ get_or t 0 s.ignored_nudges + times_ignored t more
unfolding record_nudge_shown record_query record_write
ignored-run t [] s = omega arith
ignored-run t (ignores k ∷ more) s =
    ground
      (arith, ignored-run t more (record_nudge_ignored k s), ignored-record_nudge_ignored t k s)
ignored-run t (turns ∷ more) s = ignored-run t more (act turns s)
ignored-run t (shows k ∷ more) s = ignored-run t more (act (shows k) s)
ignored-run t (queries q now ∷ more) s = ignored-run t more (act (queries q now) s)
ignored-run t (stores ∷ more) s = ignored-run t more (act stores s)

suppressed :
    (t : NudgeType) (s : SessionState)
    → 3 ≤ get_or t 0 s.ignored_nudges
    → should_show_nudge t s ≡ false
unfolding should_show_nudge
suppressed t s h = ground arith

-- Whatever happens in a session, a nudge that was shown is not shown again before three turns have
-- passed; and a nudge that was ignored three times or more in what happens is not shown afterwards,
-- whatever the session was before.
pub should_show_nudge-run :
    (t : NudgeType) (more : List Action) (s : SessionState)
    → ((run more (record_nudge_shown t s)).turn_count < s.turn_count + 3
        → should_show_nudge t (run more (record_nudge_shown t s)) ≡ false)
      × (3 ≤ times_ignored t more → should_show_nudge t (run more s) ≡ false)
should_show_nudge-run t more s = (
  debounced t s.turn_count (run more (record_nudge_shown t s)) (
      run-WasShown t s.turn_count more (record_nudge_shown t s) (
        record_nudge_shown-WasShown t s.turn_count t s (omega arith)
          (inl (==_self (priority_of t))))),
  λ h. suppressed t (run more s) (omega (arith, ignored-run t more s)),
)
