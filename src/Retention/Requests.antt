-- ===== src/Retention/Requests.antt =====
-- retention/forget_service.py: forgetting on request, and its cancellation within a window.
-- FORGET_NODE stores the request time as text and CANCEL_FORGET compares it with a number.
use engrammic.Base.{
  ℕ, ◌+◌, ◌-◌, ◌*◌, ◌≡◌, refl, inl, inr, Bool, true, false, not, ◌&&◌, Option, none, some, List, [],
  ◌∷◌, arith, ltb, ◌==◌, if◌then◌else◌, Bool-cases, is_some, length, keep, any, All, map_where,
}
use engrammic.Retention.{Item, Vault, Stamp, text, micros, keyed, live}

abbrev pub forget_fields : ℕ → Item → Item
forget_fields now n = record n {
  tombstoned_at = some now;
  forget_requested_at = some (text now);
  heat_dirty = true;
}

abbrev pub forgettable : ℕ → ℕ → Item → Bool
forgettable id silo n = keyed id silo n && live n

pub data ForgetAnswer : Type 0 where
  not_found cancel_window_expired cancelled : ForgetAnswer
  tombstoned : ℕ → ForgetAnswer

-- The live nodes with an edge to this one, once for each edge, after the write.
pub count_downstream : ℕ → List Item → List (ℕ × ℕ) → ℕ
count_downstream id items [] = 0
count_downstream id items ((a, b) ∷ links) =
    let rest = count_downstream id items links in
    (if b == id then length (keep (λ o. (o.id == a) && live o) items) else 0) + rest

unfoldable pub forget_node : ℕ → ℕ → ℕ → Vault → Vault × ForgetAnswer
unfolding count_downstream
forget_node id silo now v =
    let items = map_where (forgettable id silo) (forget_fields now) v.items in
    if any (forgettable id silo) v.items
    then (record v { items = items }, tombstoned (count_downstream id items v.links))
    else (v, not_found)

-- `>` of Cypher: between a text and a number it is null, or an error, and no row passes.
abbrev pub later_than : Option Stamp → Stamp → Bool
later_than none b = false
later_than (some (text a)) (text b) = ltb b a
later_than (some (micros a)) (micros b) = ltb b a
later_than (some (text a)) (micros b) = false
later_than (some (micros a)) (text b) = false

abbrev pub cancellable : ℕ → ℕ → Stamp → Item → Bool
cancellable id silo cutoff n =
    keyed id silo n && (is_some n.forget_requested_at && later_than n.forget_requested_at cutoff)

abbrev pub cancel_fields : Item → Item
cancel_fields n = record n {
  tombstoned_at = none;
  forget_requested_at = none;
  retention_run_id = none;
  heat_dirty = true;
}

-- The clock is read in seconds; the window is in hours.
pub cancel_request : ℕ → ℕ → ℕ → ℕ → Vault → Vault × ForgetAnswer
cancel_request window_hours id silo now v =
    let cutoff = micros (1000000 * now - window_hours * 3600 * 1000000) in
    if not (any (keyed id silo) v.items)
    then (v, not_found)
    else if any (cancellable id silo cutoff) v.items
    then (
      record v { items = map_where (cancellable id silo cutoff) cancel_fields v.items },
      cancelled,
    )
    else (v, cancel_window_expired)

-- No node carries a request time that is a number. Only the requests of this service write them.
abbrev pub has_text : Item → Bool
has_text n = elim n.forget_requested_at [
  | none ↦ true
  | some (text t) ↦ true
  | some (micros t) ↦ false
]

abbrev pub AllText : List Item → Type 0
AllText items = All (λ n. has_text n ≡ true) items

forget_fields-AllText :
    (p : Item → Bool) (now : ℕ) (ns : List Item)
    → AllText ns
    → AllText (map_where p (forget_fields now) ns)
forget_fields-AllText p now [] a = tt
forget_fields-AllText p now (n ∷ ns) (h, rest) = (
  elim (Bool-cases (p n)) [ inl yes_ ↦ rw yes_ refl | inr not_ ↦ rw not_ h ],
  forget_fields-AllText p now ns rest,
)

none-cancellable :
    (id silo cutoff : ℕ) (ns : List Item)
    → AllText ns
    → any (cancellable id silo (micros cutoff)) ns ≡ false
none-cancellable id silo cutoff [] a = refl
none-cancellable id silo cutoff (n ∷ ns) (h, rest) =
    ground (arith, none-cancellable id silo cutoff ns rest)

any-keyed-forgettable :
    (id silo now : ℕ) (ns : List Item)
    → any (forgettable id silo) ns ≡ true
    → any (keyed id silo) (map_where (forgettable id silo) (forget_fields now) ns) ≡ true
any-keyed-forgettable id silo now [] h = cc
any-keyed-forgettable id silo now (n ∷ ns) h = ground (arith, any-keyed-forgettable id silo now ns)

-- Forgetting on request cannot be cancelled: where the request times are text, as this service
-- writes them, however soon after the request and however long the window, the cancellation answers
-- that the window has expired, and changes nothing.
pub cancel_request-forget_node :
    (id silo now window_hours later : ℕ) (v : Vault) (count : ℕ)
    → AllText v.items
    → (forget_node id silo now v).1 ≡ tombstoned count
    → cancel_request window_hours id silo later (forget_node id silo now v).0
      ≡ ((forget_node id silo now v).0, cancel_window_expired)
unfolding cancel_request forget_node
cancel_request-forget_node id silo now window_hours later v count a h =
    elim (Bool-cases (any (forgettable id silo) v.items)) [
      | inr nothing ↦ absurd (ground arith)
      | inl some_match ↦
          rw
            (
              some_match,
              any-keyed-forgettable id silo now v.items some_match,
              none-cancellable id silo _
                  (map_where (forgettable id silo) (forget_fields now) v.items)
                  (forget_fields-AllText (forgettable id silo) now v.items a),
            )
            refl
    ]
