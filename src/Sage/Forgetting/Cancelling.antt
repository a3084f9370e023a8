-- ===== src/Sage/Forgetting/Cancelling.antt =====
-- Forgetting and taking it back.
use mathlib.Core.Path.{subst}
use engrammic.Base.{
  ℕ, ◌+◌, ◌≤◌, ◌<◌, ◌≡◌, refl, sym, ◌∙◌, Bool, true, false, ◌&&◌, none, some, List, [], ◌∷◌, arith,
  if◌then◌else◌, keep,
}
use engrammic.Graph.{
  Node, Store, NodeState, active, tombstoned, is_tombstoned, matches, find_node, set_where,
}
use engrammic.Graph.Updates.{find_node-matches}
use engrammic.Graph.Unique.{
  UniqueAt, keep-UniqueAt, find_node-UniqueAt, set_where-none, set_where-UniqueAt,
}
use engrammic.Vectors.{DeadLetter}
use engrammic.Sage.Results.{ok, err, already_tombstoned}
use engrammic.Sage.Forgetting.{
  Outside, Forgotten, can_forget, tombstone_fields, tombstone_node, cancel_window_seconds,
  after_cascade, forget, window_error, window_open, restore_fields, restorable, restore_and_report,
  cancel_forget,
}
use engrammic.Sage.Collection.{collectable}

tombstone_node-UniqueAt :
    (id silo expires : ℕ) (st : Store) (n : Node)
    → UniqueAt st id silo n
    → can_forget n.state ≡ true
    → UniqueAt (tombstone_node id silo expires st) id silo (tombstone_fields expires n)
unfolding tombstone_node
tombstone_node-UniqueAt id silo expires st n u live =
    subst (UniqueAt (tombstone_node id silo expires st) id silo) fits (
      unfold tombstone_node in
      set_where-UniqueAt (λ m. matches id silo m && can_forget m.state) (tombstone_fields expires)
        st id silo n (λ m. refl) u)
  where
    fits :
        (if matches id silo n && can_forget n.state then tombstone_fields expires n else n)
        ≡ tombstone_fields expires n
    fits = rw (find_node-matches st id silo n (find_node-UniqueAt st id silo n u), live) refl

forget_plain :
    (out : Outside) (st : Store) (queue : List DeadLetter) (id silo now later : ℕ) (n : Node)
    (f : Forgotten)
    → find_node st id silo ≡ some n
    → forget out st queue id silo false now later ≡ ok f
    → (can_forget n.state ≡ true)
      × (f.store ≡ tombstone_node id silo (now + cancel_window_seconds) st)
unfolding forget after_cascade
forget_plain out st queue id silo now later n f found h = (ground arith, ground arith)

cancel_forget_passes :
    (st : Store) (id silo first second : ℕ) (n : Node)
    → UniqueAt st id silo n
    → is_tombstoned n.state ≡ true
    → window_error first n.cancel_window_expires ≡ none
    → cancel_forget st id silo first second ≡ restore_and_report id silo second st
unfolding cancel_forget
cancel_forget_passes st id silo first second n u gone open_ =
    rw (find_node-UniqueAt st id silo n u, cancel_forget) (rw gone (rw open_ refl))

restorable_nodes :
    (st : Store) (id silo second : ℕ) (n : Node)
    → UniqueAt st id silo n
    → keep (restorable id silo second) st.nodes
      ≡ (if is_tombstoned n.state && window_open second n.cancel_window_expires then n ∷ [] else [])
restorable_nodes st id silo second n u =
    keep-UniqueAt st id silo n
      (λ m. is_tombstoned m.state && window_open second m.cancel_window_expires) u

-- A cancellation inside the window of a tombstoned node that is alone with its key.
restore_open :
    (st : Store) (id silo second : ℕ) (n : Node) (s : NodeState)
    → UniqueAt st id silo n
    → is_tombstoned n.state ≡ true
    → window_open second n.cancel_window_expires ≡ true
    → n.previous_state ≡ some s
    → UniqueAt (restore_and_report id silo second st).0 id silo (restore_fields second n)
      × ((restore_and_report id silo second st).1 ≡ ok s)
unfolding restore_and_report
restore_open st id silo second n s u gone open_ previous = (
  subst (UniqueAt (set_where (restorable id silo second) (restore_fields second) st) id silo) fits (
      set_where-UniqueAt (restorable id silo second) (restore_fields second) st id silo n
        (λ m. refl) u),
  rw (restorable_nodes st id silo second n u, gone, open_, previous) refl,
)
  where
    fits :
        (if restorable id silo second n then restore_fields second n else n)
        ≡ restore_fields second n
    fits = rw (find_node-matches st id silo n (find_node-UniqueAt st id silo n u), gone, open_) refl

-- A node alone with its key that was forgotten without a cascade does not come back: a cancellation
-- in time reports TOMBSTONED, and leaves the node tombstoned without a window, the same in all else,
-- so that it is never collected, and that forgetting it again is refused.
pub cancel_forget-forget :
    (out out' : Outside) (st : Store) (queue queue' : List DeadLetter)
    (id silo now later first second now' later' at : ℕ) (wants_cascade : Bool) (n : Node)
    (f : Forgotten)
    → UniqueAt st id silo n
    → forget out st queue id silo false now later ≡ ok f
    → first ≤ now + 3600
    → second < now + 3600
    → let (after, result) = cancel_forget f.store id silo first second in
      let stuck = record n {
        state = some tombstoned;
        previous_state = some tombstoned;
        cancel_window_expires = none;
        restored_at = some second;
      } in
      (result ≡ ok tombstoned)
      × UniqueAt after id silo stuck
      × (collectable silo at stuck ≡ false)
      × (forget out' after queue' id silo wants_cascade now' later' ≡ err already_tombstoned)
unfolding forget
cancel_forget-forget out out' st queue queue' id silo now later first second now' later' at
      wants_cascade n f u h in_time still =
    let (live, stored) =
      forget_plain out st queue id silo now later n f (find_node-UniqueAt st id silo n u) h in
    let expires = now + cancel_window_seconds in
    let gone = tombstone_fields expires n in
    let marked : UniqueAt f.store id silo gone =
      subst (λ x. UniqueAt x id silo gone) (sym stored)
        (tombstone_node-UniqueAt id silo expires st n u live) in
    let (back, said) =
      restore_open f.store id silo second gone tombstoned marked refl (ground arith) refl in
    rw (cancel_forget_passes f.store id silo first second gone marked refl (ground arith)) (
      said,
      back,
      ground arith,
      rw
          (
            find_node-UniqueAt (restore_and_report id silo second f.store).0 id silo
                (restore_fields second gone) back,
            forget,
          )
          refl,
    )

-- For a tombstoned node alone with its key whose window is not past at the first clock reading, and
-- is missing or closed at the second: the cancellation reports ACTIVE and changes nothing.
pub cancel_forget_unrestored :
    (st : Store) (id silo first second : ℕ) (n : Node)
    → UniqueAt st id silo n
    → n.state ≡ some tombstoned
    → window_error first n.cancel_window_expires ≡ none
    → window_open second n.cancel_window_expires ≡ false
    → cancel_forget st id silo first second ≡ (st, ok active)
cancel_forget_unrestored st id silo first second n u gone passes shut =
    cancel_forget_passes st id silo first second n u (rw gone refl) passes ∙ unchanged
  where
    none_fit : keep (restorable id silo second) st.nodes ≡ []
    none_fit = restorable_nodes st id silo second n u ∙ rw (gone, shut) refl

    unchanged : restore_and_report id silo second st ≡ (st, ok active)
    unchanged =
        unfold restore_and_report in
        rw
          (set_where-none (restorable id silo second) (restore_fields second) st none_fit, none_fit)
          refl
