-- ===== src/Telemetry/Percentiles.antt =====
-- The percentiles that a flush writes.
use Prim.Native.Nat.{◌/◌}
use engrammic.Base.{
  ℕ, zero, suc, ◌+◌, ◌-◌, ◌*◌, ◌≤◌, ◌<◌, ◌≡◌, refl, ◌≢◌, inl, inr, some, List, [], ◌∷◌, arith, ltb,
  leb, if◌then◌else◌, Bool-cases, length, All,
}
use native.Mathlib.Nat.{mul-le-mul_right, mul-le-mul_left}
use engrammic.Telemetry.{insert_sorted, sorted, item, percentile}

module _ {κ} (P : ℕ → Type κ) where
  All-insert_sorted : (x : ℕ) (xs : List ℕ) → P x → All P xs → All P (insert_sorted x xs)
  unfolding insert_sorted
  All-insert_sorted x [] h hs = (h, tt)
  All-insert_sorted x (y ∷ ys) h hs = elim (Bool-cases (leb x y)) [
    | inl first ↦ rw first (h, hs)
    | inr later ↦ rw later (hs.0, All-insert_sorted x ys h hs.1)
  ]

  pub All-sorted : (xs : List ℕ) → All P xs → All P (sorted xs)
  unfolding sorted
  All-sorted [] h = tt
  All-sorted (x ∷ xs) h = All-insert_sorted x (sorted xs) h.0 (All-sorted xs h.1)

  All-item : (xs : List ℕ) (i : ℕ) → i < length xs → All P xs → P (item xs i)
  All-item [] i h hs = absurd (omega arith)
  All-item (x ∷ xs) zero h hs = hs.0
  All-item (x ∷ xs) (suc i) h hs = All-item xs i (omega arith) hs.1

between :
    (lo hi r a c : ℕ)
    → r ≤ 100
    → lo ≤ a
    → a ≤ hi
    → c ≤ hi
    → (lo * 100 ≤ a * 100 + r * (c - a)) × (a * 100 + r * (c - a) ≤ hi * 100)
between lo hi r a c hr la ah ch = (omega arith, omega (arith, mul-le-mul_right (c - a) hr))

rest_le : (k : ℕ) → k - k / 100 * 100 ≤ 100
rest_le k = omega arith

-- A percentile of a list that is not empty lies between any bounds of the list's values.
pub percentile_between :
    (lo hi p : ℕ) (xs : List ℕ)
    → xs ≢ []
    → p ≤ 100
    → All (λ x. lo ≤ x) xs
    → All (λ x. x ≤ hi) xs
    → (v : ℕ) × (percentile xs p ≡ some v) × (lo * 100 ≤ v) × (v ≤ hi * 100)
unfolding percentile
percentile_between lo hi p [] h hp below above = absurd (h refl)
percentile_between lo hi p (x ∷ xs) h hp below above =
    let b =
      between lo hi (k - f * 100) (item values f) (item values c) (rest_le k)
        (All-item (λ x. lo ≤ x) values f f_lt below) (All-item (λ x. x ≤ hi) values f f_lt above)
        (All-item (λ x. x ≤ hi) values c c_lt above) in
    (item values f * 100 + (k - f * 100) * (item values c - item values f), refl, b.0, b.1)
  where
    values : List ℕ
    values = x ∷ xs

    k : ℕ
    k = length xs * p

    f : ℕ
    f = k / 100

    f_lt : f < length values
    f_lt = omega (arith, mul-le-mul_left (length xs) hp)

    c : ℕ
    c = if ltb (f + 1) (length values) then f + 1 else f

    c_lt : c < length values
    c_lt = ground (arith, f_lt)
