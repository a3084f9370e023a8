-- ===== src/Reactions/Batches.antt =====
-- What the accumulator does with the items it is given.
use engrammic.Base.{
  ℕ, ◌+◌, ◌≤◌, ◌<◌, ◌≡◌, refl, sym, ap, ◌∙◌, ◌≢◌, inl, inr, true, false, List, [], ◌∷◌, ◌++◌, arith,
  leb, Bool-cases, length, is_empty, All, length-append,
}
use engrammic.Reactions.{
  PendingItem, Timer, renew, unset, waiting, ended, Accumulator, new_accumulator, add,
  flush_after_timeout, close,
}
use mathlib.Core.List.{append_assoc, append-nil}

abbrev pub concat {ℓ} : {A : Type ℓ} → List (List A) → List A
concat [] = []
concat (xs ∷ xss) = xs ++ concat xss

-- The states that an accumulator reaches while the items of a list are added one after the other:
-- its timer elapses only while it waits, and it may be closed at any time.
pub data Reaches (batch_size : ℕ) : List PendingItem → Accumulator → Type 0 where
  created : Reaches batch_size [] (new_accumulator batch_size)
  adds :
      {items : List PendingItem} {a : Accumulator} (item : PendingItem)
      → Reaches batch_size items a
      → Reaches batch_size (items ++ item ∷ []) (add item a)
  elapses :
      {items : List PendingItem} {a : Accumulator}
      → a.timer ≡ waiting
      → Reaches batch_size items a
      → Reaches batch_size items (flush_after_timeout a)
  closes :
      {items : List PendingItem} {a : Accumulator}
      → Reaches batch_size items a
      → Reaches batch_size items (close a)

-- Items wait only while a timer runs, and fewer than a batch of them.
pub record IsArmed (batch_size : ℕ) (a : Accumulator) : Type 0 where
  pub size : a.batch_size ≡ batch_size
  pub below : length a.pending < batch_size
  pub armed : a.pending ≢ [] → a.timer ≡ waiting
  pub batches : All (λ b. (0 < length b) × (length b ≤ batch_size)) a.scheduled

new_accumulator-IsArmed : (n : ℕ) → 0 < n → IsArmed n (new_accumulator n)
unfolding new_accumulator
new_accumulator-IsArmed n h = record {
  size = refl;
  below = h;
  armed = λ e. absurd (e refl);
  batches = tt;
}

All-snoc {ℓ κ} :
    {A : Type ℓ} (P : A → Type κ) (xs : List A) (x : A) → All P xs → P x → All P (xs ++ x ∷ [])
All-snoc P [] x h p = (p, tt)
All-snoc P (y ∷ ys) x h p = (h.0, All-snoc P ys x h.1 p)

renew-waiting : (t : Timer) → renew t ≡ waiting
renew-waiting waiting = refl
renew-waiting unset = refl
renew-waiting ended = refl

nil_of_empty {ℓ} : {A : Type ℓ} (xs : List A) → is_empty xs ≡ true → xs ≡ []
nil_of_empty [] h = refl
nil_of_empty (x ∷ xs) h = cc

pos_of_nonempty {ℓ} : {A : Type ℓ} (xs : List A) → is_empty xs ≡ false → 0 < length xs
pos_of_nonempty [] h = cc
pos_of_nonempty (x ∷ xs) h = omega arith

module _ (n : ℕ) where
  abbrev pub FitsBatch : List PendingItem → Type 0
  FitsBatch b = (0 < length b) × (length b ≤ n)

  add-IsArmed : (item : PendingItem) (a : Accumulator) → IsArmed n a → IsArmed n (add item a)
  unfolding add
  add-IsArmed item a h = elim (Bool-cases (leb a.batch_size (length (a.pending ++ item ∷ [])))) [
    | inl full ↦ rw full (record {
      size = h.size;
      below = omega (arith, h.below);
      armed = λ e. absurd (e refl);
      batches =
          All-snoc FitsBatch a.scheduled (a.pending ++ item ∷ []) h.batches
            (omega (arith, one_more), omega (arith, one_more, h.below));
    })
    | inr room ↦ rw room (record {
      size = h.size;
      below = ground (arith, h.size);
      armed = λ e. renew-waiting a.timer;
      batches = h.batches;
    })
  ]
    where
      one_more : length (a.pending ++ item ∷ []) ≡ length a.pending + 1
      one_more = length-append a.pending (item ∷ [])

  idle-IsArmed :
      (t : Timer) (a : Accumulator)
      → IsArmed n a
      → is_empty a.pending ≡ true
      → IsArmed n (record a { timer = t })
  idle-IsArmed t a h none_left = record {
    size = h.size;
    below = h.below;
    armed = λ e. absurd (e (nil_of_empty a.pending none_left));
    batches = h.batches;
  }

  scheduled-IsArmed :
      (t : Timer) (a : Accumulator)
      → IsArmed n a
      → is_empty a.pending ≡ false
      → IsArmed n (record a { pending = []; timer = t; scheduled = a.scheduled ++ a.pending ∷ [] })
  scheduled-IsArmed t a h left = record {
    size = h.size;
    below = omega (arith, h.below);
    armed = λ e. absurd (e refl);
    batches =
        All-snoc FitsBatch a.scheduled a.pending h.batches
          (pos_of_nonempty a.pending left, omega (arith, h.below));
  }

  flush_after_timeout-IsArmed : (a : Accumulator) → IsArmed n a → IsArmed n (flush_after_timeout a)
  unfolding flush_after_timeout
  flush_after_timeout-IsArmed a h = elim (Bool-cases (is_empty a.pending)) [
    | inl none_left ↦ rw none_left (idle-IsArmed ended a h none_left)
    | inr left ↦ rw left (scheduled-IsArmed unset a h left)
  ]

  close-IsArmed : (a : Accumulator) → IsArmed n a → IsArmed n (close a)
  unfolding close
  close-IsArmed a h = elim (Bool-cases (is_empty a.pending)) [
    | inl none_left ↦ rw none_left (idle-IsArmed unset a h none_left)
    | inr left ↦ rw left (scheduled-IsArmed unset a h left)
  ]

-- While items wait, the accumulator has a timer that waits, fewer items wait than make a batch, and
-- every batch that it scheduled has at least one item and at most the batch size.
pub Reaches-IsArmed :
    (n : ℕ) (items : List PendingItem) (a : Accumulator) → 0 < n → Reaches n items a → IsArmed n a
Reaches-IsArmed n _ _ h created = new_accumulator-IsArmed n h
Reaches-IsArmed n _ _ h (adds {a = a} item r) = add-IsArmed n item a (Reaches-IsArmed n _ a h r)
Reaches-IsArmed n _ _ h (elapses {a = a} e r) =
    flush_after_timeout-IsArmed n a (Reaches-IsArmed n _ a h r)
Reaches-IsArmed n _ _ h (closes {a = a} r) = close-IsArmed n a (Reaches-IsArmed n _ a h r)

-- All that was given to the accumulator, in order.
abbrev pub given : Accumulator → List PendingItem
given a = concat a.scheduled ++ a.pending

concat-snoc {ℓ} :
    {A : Type ℓ} (xss : List (List A)) (xs : List A) → concat (xss ++ xs ∷ []) ≡ concat xss ++ xs
concat-snoc [] xs = append-nil xs
concat-snoc (ys ∷ xss) xs = rw (concat-snoc xss xs) (sym (append_assoc ys (concat xss) xs))

given-scheduled :
    (t : Timer) (a : Accumulator)
    → given (record a { pending = []; timer = t; scheduled = a.scheduled ++ a.pending ∷ [] })
      ≡ given a
given-scheduled t a = append-nil _ ∙ concat-snoc a.scheduled a.pending

given-add : (item : PendingItem) (a : Accumulator) → given (add item a) ≡ given a ++ item ∷ []
unfolding add
given-add item a = elim (Bool-cases (leb a.batch_size (length (a.pending ++ item ∷ [])))) [
  | inl full ↦ rw full (
      given-scheduled unset (record a { pending = a.pending ++ item ∷ [] })
      ∙ sym (append_assoc (concat a.scheduled) a.pending (item ∷ [])))
  | inr room ↦ rw room (sym (append_assoc (concat a.scheduled) a.pending (item ∷ [])))
]

given-flush_after_timeout : (a : Accumulator) → given (flush_after_timeout a) ≡ given a
unfolding flush_after_timeout
given-flush_after_timeout a = elim (Bool-cases (is_empty a.pending)) [
  | inl none_left ↦ rw none_left refl
  | inr left ↦ rw left (given-scheduled unset a)
]

given-close : (a : Accumulator) → given (close a) ≡ given a
unfolding close
given-close a = elim (Bool-cases (is_empty a.pending)) [
  | inl none_left ↦ rw none_left refl
  | inr left ↦ rw left (given-scheduled unset a)
]

given-Reaches :
    (n : ℕ) (items : List PendingItem) (a : Accumulator) → Reaches n items a → given a ≡ items
unfolding new_accumulator
given-Reaches n _ _ created = refl
given-Reaches n _ _ (adds {a = a} item r) =
    given-add item a ∙ ap (λ l. l ++ item ∷ []) (given-Reaches n _ a r)
given-Reaches n _ _ (elapses {a = a} e r) = given-flush_after_timeout a ∙ given-Reaches n _ a r
given-Reaches n _ _ (closes {a = a} r) = given-close a ∙ given-Reaches n _ a r

pending-close : (a : Accumulator) → (close a).pending ≡ []
unfolding close
pending-close a = elim (Bool-cases (is_empty a.pending)) [
  | inl none_left ↦ rw none_left (nil_of_empty a.pending none_left)
  | inr left ↦ rw left refl
]

pending-flush_after_timeout : (a : Accumulator) → (flush_after_timeout a).pending ≡ []
unfolding flush_after_timeout
pending-flush_after_timeout a = elim (Bool-cases (is_empty a.pending)) [
  | inl none_left ↦ rw none_left (nil_of_empty a.pending none_left)
  | inr left ↦ rw left refl
]

-- Every item that is added is flushed: whatever was added, in whatever order timers elapsed and the
-- accumulator was closed, after its close, or once the timer has elapsed, the scheduled batches hold
-- all the items, each as often as it was added and in that order. And while items wait, the timer
-- does.
pub Reaches-flushed :
    (n : ℕ) (items : List PendingItem) (a : Accumulator)
    → 0 < n
    → Reaches n items a
    → (concat (close a).scheduled ≡ items)
      × (concat (flush_after_timeout a).scheduled ≡ items)
      × (a.pending ≢ [] → a.timer ≡ waiting)
Reaches-flushed n items a h r = (
  all_scheduled (close a) (pending-close a) ∙ given-close a ∙ given-Reaches n items a r,
  all_scheduled (flush_after_timeout a) (pending-flush_after_timeout a)
      ∙ given-flush_after_timeout a
      ∙ given-Reaches n items a r,
  (Reaches-IsArmed n items a h r).armed,
)
  where
    all_scheduled : (b : Accumulator) → b.pending ≡ [] → concat b.scheduled ≡ given b
    all_scheduled b e = rw e (sym (append-nil _))
