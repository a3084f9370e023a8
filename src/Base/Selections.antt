-- ===== src/Base/Selections.antt =====
-- Lists that are filtered and changed in place: what a query selects and what a `SET` writes.
use engrammic.Base.Lists.{keep, any, find_first}
use mathlib.Core.Option.{Option, none, some}
use engrammic.Base.Tests.{if◌then◌else◌}
use mathlib.Core.Path.{◌≡◌, refl}
use mathlib.Core.Bool.{Bool, true, false, ◌&&◌}
use mathlib.Core.List.{List, [], ◌∷◌}
use native.Mathlib.Omega.{arith}

module _ {ℓ} {A : Type ℓ} where
  abbrev pub map_where : (A → Bool) → (A → A) → List A → List A
  map_where p g [] = []
  map_where p g (n ∷ ns) = (if p n then g n else n) ∷ map_where p g ns

  pub keep-and : (q r : A → Bool) (ns : List A) → keep (λ m. q m && r m) ns ≡ keep r (keep q ns)
  keep-and q r [] = refl
  keep-and q r (n ∷ ns) = ground (arith, keep-and q r ns)

  pub any-and : (q r : A → Bool) (ns : List A) → any (λ m. q m && r m) ns ≡ any r (keep q ns)
  any-and q r [] = refl
  any-and q r (n ∷ ns) = ground (arith, any-and q r ns)

  pub keep-map_where :
      (q p : A → Bool) (g : A → A) (ns : List A)
      → ((n : A) → q (g n) ≡ q n)
      → keep q (map_where p g ns) ≡ map_where p g (keep q ns)
  keep-map_where q p g [] k = refl
  keep-map_where q p g (n ∷ ns) k = ground (arith, k n, keep-map_where q p g ns k)

  abbrev pub change : (A → Bool) → (A → A) → Option A → Option A
  change p g none = none
  change p g (some n) = some (if p n then g n else n)

  -- What is found after a `SET` is what was found before, changed if it fits.
  pub find_first-map_where :
      (q p : A → Bool) (g : A → A) (ns : List A)
      → ((n : A) → q (g n) ≡ q n)
      → find_first q (map_where p g ns) ≡ change p g (find_first q ns)
  find_first-map_where q p g [] k = refl
  find_first-map_where q p g (n ∷ ns) k = ground (arith, k n, find_first-map_where q p g ns k)

  -- A `SET` that fits nothing changes nothing.
  pub map_where-unfit :
      (p : A → Bool) (g : A → A) (ns : List A) → any p ns ≡ false → map_where p g ns ≡ ns
  map_where-unfit p g [] h = refl
  map_where-unfit p g (n ∷ ns) h = ground (arith, map_where-unfit p g ns)

  pub any-map_where :
      (q p : A → Bool) (g : A → A) (ns : List A)
      → ((n : A) → q (g n) ≡ q n)
      → any q (map_where p g ns) ≡ any q ns
  any-map_where q p g [] k = refl
  any-map_where q p g (n ∷ ns) k = ground (arith, k n, any-map_where q p g ns k)

  pub find_first-none : (q : A → Bool) (ns : List A) → any q ns ≡ false → find_first q ns ≡ none
  find_first-none q [] h = refl
  find_first-none q (n ∷ ns) h = ground (arith, find_first-none q ns)

  pub find_first-true : (q : A → Bool) (n : A) (ns : List A) → find_first q ns ≡ some n → q n ≡ true
  find_first-true q n [] e = cc
  find_first-true q n (m ∷ ms) e = ground (arith, find_first-true q n ms)
