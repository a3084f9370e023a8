-- ===== src/Sessions/Priorities.antt =====
-- Which nudges are kept.

use engrammic.Base.{
  ℕ, zero, suc, ◌≤◌, ◌≡◌, refl, ap, ◌∙◌, inl, inr, Bool, List, [], ◌∷◌, ◌++◌, arith, leb, leb→le,
  Bool-cases, length, take, keep, All, length-take-le,
}
use engrammic.Sessions.{Nudge, insert_nudge, by_priority, max_nudges, prioritize_nudges, drop}

-- In order of priority.
abbrev pub IsOrdered : List Nudge → Type 0
IsOrdered [] = Unit
IsOrdered (n ∷ ns) = All (λ m. n.priority ≤ m.priority) ns × IsOrdered ns

module _ {ℓ κ} {A : Type ℓ} (P : A → Type κ) where
  All-take : (n : ℕ) (xs : List A) → All P xs → All P (take n xs)
  All-take zero xs h = tt
  All-take (suc n) [] h = tt
  All-take (suc n) (x ∷ xs) h = (h.0, All-take n xs h.1)

  All-drop : (n : ℕ) (xs : List A) → All P xs → All P (drop n xs)
  All-drop zero xs h = h
  All-drop (suc n) [] h = tt
  All-drop (suc n) (x ∷ xs) h = All-drop n xs h.1

All-insert_nudge {κ} :
    (P : Nudge → Type κ) (n : Nudge) (ns : List Nudge) → P n → All P ns → All P (insert_nudge n ns)
unfolding insert_nudge
All-insert_nudge P n [] p h = (p, tt)
All-insert_nudge P n (m ∷ ms) p h = elim (Bool-cases (leb n.priority m.priority)) [
  | inl first ↦ rw first (p, h)
  | inr later ↦ rw later (h.0, All-insert_nudge P n ms p h.1)
]

All-mono :
    (a b : ℕ) (ns : List Nudge)
    → a ≤ b
    → All (λ m. b ≤ m.priority) ns
    → All (λ m. a ≤ m.priority) ns
All-mono a b [] l h = tt
All-mono a b (n ∷ ns) l h = (omega (arith, h.0), All-mono a b ns l h.1)

insert_nudge-IsOrdered :
    (n : Nudge) (ns : List Nudge) → IsOrdered ns → IsOrdered (insert_nudge n ns)
unfolding insert_nudge
insert_nudge-IsOrdered n [] h = (tt, tt)
insert_nudge-IsOrdered n (m ∷ ms) h = elim (Bool-cases (leb n.priority m.priority)) [
  | inl first ↦ rw first (
    (
      leb→le n.priority m.priority first,
      All-mono n.priority m.priority ms (leb→le n.priority m.priority first) h.0,
    ),
    h,
  )
  | inr later ↦ rw later (
    All-insert_nudge (λ k. m.priority ≤ k.priority) n ms (ground arith) h.0,
    insert_nudge-IsOrdered n ms h.1,
  )
]

by_priority-IsOrdered : (ns : List Nudge) → IsOrdered (by_priority ns)
unfolding by_priority
by_priority-IsOrdered [] = tt
by_priority-IsOrdered (n ∷ ns) =
    insert_nudge-IsOrdered n (by_priority ns) (by_priority-IsOrdered ns)

take-drop-IsOrdered :
    (k : ℕ) (ns : List Nudge)
    → IsOrdered ns
    → All (λ a. All (λ b. a.priority ≤ b.priority) (drop k ns)) (take k ns)
take-drop-IsOrdered zero ns h = tt
take-drop-IsOrdered (suc k) [] h = tt
take-drop-IsOrdered (suc k) (n ∷ ns) h =
    (All-drop (λ m. n.priority ≤ m.priority) k ns h.0, take-drop-IsOrdered k ns h.1)

take-IsOrdered : (k : ℕ) (ns : List Nudge) → IsOrdered ns → IsOrdered (take k ns)
take-IsOrdered zero ns h = tt
take-IsOrdered (suc k) [] h = tt
take-IsOrdered (suc k) (n ∷ ns) h =
    (All-take (λ m. n.priority ≤ m.priority) k ns h.0, take-IsOrdered k ns h.1)

count-insert_nudge :
    (p : Nudge → Bool) (n : Nudge) (ns : List Nudge)
    → length (keep p (insert_nudge n ns)) ≡ length (keep p (n ∷ ns))
unfolding insert_nudge
count-insert_nudge p n [] = refl
count-insert_nudge p n (m ∷ ms) = ground (arith, count-insert_nudge p n ms)

count-by_priority :
    (p : Nudge → Bool) (ns : List Nudge) → length (keep p (by_priority ns)) ≡ length (keep p ns)
unfolding by_priority
count-by_priority p [] = refl
count-by_priority p (n ∷ ns) =
    count-insert_nudge p n (by_priority ns) ∙ ground (arith, count-by_priority p ns)

append-take-drop : (k : ℕ) (ns : List Nudge) → take k ns ++ drop k ns ≡ ns
append-take-drop zero ns = refl
append-take-drop (suc k) [] = refl
append-take-drop (suc k) (n ∷ ns) = ap (λ l. n ∷ l) (append-take-drop k ns)

-- The nudges that are kept, at most three and in order of priority, and others are together the
-- given ones, and each that is kept comes before each of the others or has the same priority.
pub prioritize_nudges_first :
    (ns : List Nudge)
    → (dropped : List Nudge) × ((p : Nudge → Bool)
        → length (keep p (prioritize_nudges ns ++ dropped)) ≡ length (keep p ns))
      × (length (prioritize_nudges ns) ≤ 3)
      × IsOrdered (prioritize_nudges ns)
      × All (λ a. All (λ b. a.priority ≤ b.priority) dropped) (prioritize_nudges ns)
unfolding prioritize_nudges
prioritize_nudges_first ns = (
  drop max_nudges (by_priority ns),
  λ p. rw (append-take-drop max_nudges (by_priority ns)) (count-by_priority p ns),
  length-take-le 3 (by_priority ns),
  take-IsOrdered 3 (by_priority ns) (by_priority-IsOrdered ns),
  take-drop-IsOrdered 3 (by_priority ns) (by_priority-IsOrdered ns),
)
