-- ===== src/Retention/Aging.antt =====
-- What the ageing step of a sweep tombstones.
use mathlib.Core.Path.{subst}
use engrammic.Base.{
  ℕ, ◌≤◌, ◌≡◌, refl, sym, ap, ◌∙◌, Bool, true, false, not, ◌&&◌, ◌||◌, List, [], ◌∷◌, ◌++◌, map,
  arith, ◌==◌, if◌then◌else◌, ==→eq, is_some, is_empty, keep, any, contains, map_where, any-and,
  keep-map_where,
}
use engrammic.Retention.{
  is_permanent, has_aged, DecayClass, Item, Vault, RetentionPolicy, is_eligible_for_tombstone,
  keyed, live, is_candidate, find_tombstone_candidates, tombstone_item, live_at, tombstone_batch,
  soil, mark_heat_dirty, tombstone_nodes,
}

-- Once a node is eligible for its tombstone, it stays so while time passes and its heat does not
-- rise.
pub is_eligible_mono :
    (p : RetentionPolicy) (c : DecayClass) (created heat cooler now later : ℕ)
    → cooler ≤ heat
    → now ≤ later
    → is_eligible_for_tombstone p c created heat now ≡ true
    → is_eligible_for_tombstone p c created cooler later ≡ true
unfolding is_eligible_for_tombstone
is_eligible_mono p DecayClass.permanent created heat cooler now later hh hn h = h
is_eligible_mono p DecayClass.ephemeral created heat cooler now later hh hn h = ground arith
is_eligible_mono p DecayClass.standard created heat cooler now later hh hn h = ground arith
is_eligible_mono p DecayClass.durable created heat cooler now later hh hn h = ground arith
is_eligible_mono p DecayClass.unknown created heat cooler now later hh hn h = h

abbrev pub OnlyAt : List Item → ℕ → ℕ → Item → Type 0
OnlyAt items id silo n = keep (keyed id silo) items ≡ n ∷ []

module _ (silo now run : ℕ) where
  abbrev pub hit : List ℕ → Item → Bool
  hit ids m = (m.silo == silo) && (live m && contains m.id ids)

  hit_once :
      (id : ℕ) (ids : List ℕ) (ms : List Item)
      → map_where
          (hit ids)
          (tombstone_item now run)
          (map_where (live_at id silo) (tombstone_item now run) ms)
        ≡ map_where (hit (id ∷ ids)) (tombstone_item now run) ms
  hit_once id ids [] = refl
  hit_once id ids (m ∷ ms) = ground (arith, hit_once id ids ms)

  hit_none : (ms : List Item) → map_where (hit []) (tombstone_item now run) ms ≡ ms
  hit_none [] = refl
  hit_none (m ∷ ms) = ground (arith, hit_none ms)

  items-tombstone_batch :
      (ids : List ℕ) (ms : List Item)
      → (tombstone_batch silo now run ids ms).0 ≡ map_where (hit ids) (tombstone_item now run) ms
  unfolding tombstone_batch
  items-tombstone_batch [] ms = sym (hit_none ms)
  items-tombstone_batch (id ∷ ids) ms =
      items-tombstone_batch ids (map_where (live_at id silo) (tombstone_item now run) ms)
      ∙ hit_once id ids ms

  contains-append :
      (x : ℕ) (xs ys : List ℕ) → contains x (xs ++ ys) ≡ (contains x xs || contains x ys)
  contains-append x [] ys = refl
  contains-append x (y ∷ xs) ys = ground (arith, contains-append x xs ys)

  rows_once :
      (x id : ℕ) (ids : List ℕ) (ms : List Item)
      → (contains x (map (λ n. n.id) (keep (live_at id silo) ms))
          || any
              (λ m. (m.id == x) && hit ids m)
              (map_where (live_at id silo) (tombstone_item now run) ms))
        ≡ any (λ m. (m.id == x) && hit (id ∷ ids) m) ms
  rows_once x id ids [] = refl
  rows_once x id ids (m ∷ ms) = ground (arith, rows_once x id ids ms)

  rows_none : (x : ℕ) (ms : List Item) → any (λ m. (m.id == x) && hit [] m) ms ≡ false
  rows_none x [] = refl
  rows_none x (m ∷ ms) = ground (arith, rows_none x ms)

  rows-tombstone_batch :
      (x : ℕ) (ids : List ℕ) (ms : List Item)
      → contains x (tombstone_batch silo now run ids ms).1 ≡ any (λ m. (m.id == x) && hit ids m) ms
  unfolding tombstone_batch
  rows-tombstone_batch x [] ms = sym (rows_none x ms)
  rows-tombstone_batch x (id ∷ ids) ms =
      contains-append x (map (λ n. n.id) (keep (live_at id silo) ms)) _
      ∙ rw (rows-tombstone_batch x ids (map_where (live_at id silo) (tombstone_item now run) ms))
          (rows_once x id ids ms)

pub any-keyed :
    (r : Item → Bool) (id silo : ℕ) (n : Item) (ms : List Item)
    → OnlyAt ms id silo n
    → any (λ m. keyed id silo m && r m) ms ≡ r n
any-keyed r id silo n ms only = any-and (keyed id silo) r ms ∙ rw only (ground arith)

pub keyed_of :
    (id silo : ℕ) (n : Item) (ms : List Item) → OnlyAt ms id silo n → keyed id silo n ≡ true
keyed_of id silo n [] only = absurd (cc)
keyed_of id silo n (m ∷ ms) only = ground (arith, keyed_of id silo n ms)

pub any-regroup :
    (x silo : ℕ) (r : Item → Bool) (ms : List Item)
    → any (λ m. (m.id == x) && ((m.silo == silo) && r m)) ms ≡ any (λ m. keyed x silo m && r m) ms
any-regroup x silo r [] = refl
any-regroup x silo r (m ∷ ms) = ground (arith, any-regroup x silo r ms)

pub contains-map-keep :
    (x : ℕ) (c : Item → Bool) (ms : List Item)
    → contains x (map (λ n. n.id) (keep c ms)) ≡ any (λ m. (m.id == x) && c m) ms
contains-map-keep x c [] = refl
contains-map-keep x c (m ∷ ms) = ground (arith, contains-map-keep x c ms)

-- What is asked of a candidate besides its silo.
abbrev pub fits : RetentionPolicy → ℕ → ℕ → Item → Bool
fits p silo now n =
    is_some n.decay_class
    && (live n && (not (is_permanent n.decay_class) && (not n.is_reflection && has_aged p now n)))

pub contains-find_tombstone_candidates :
    (p : RetentionPolicy) (silo now id : ℕ) (v : Vault) (n : Item)
    → OnlyAt v.items id silo n
    → contains id (find_tombstone_candidates p silo now v) ≡ fits p silo now n
unfolding find_tombstone_candidates
contains-find_tombstone_candidates p silo now id v n only =
    contains-map-keep id (is_candidate p silo now) v.items
    ∙ any-regroup id silo (fits p silo now) v.items
    ∙ any-keyed (fits p silo now) id silo n v.items only

soil_none : (silo : ℕ) (ms : List Item) → mark_heat_dirty silo [] ms ≡ ms
unfolding mark_heat_dirty
soil_none silo [] = refl
soil_none silo (m ∷ ms) = unfold mark_heat_dirty in ground (arith, soil_none silo ms)

mark_anyway :
    (silo : ℕ) (rows : List ℕ) (ms : List Item)
    → (if is_empty rows then ms else mark_heat_dirty silo rows ms) ≡ mark_heat_dirty silo rows ms
mark_anyway silo [] ms = sym (soil_none silo ms)
mark_anyway silo (x ∷ rows) ms = refl

pub items-tombstone_nodes :
    (ids : List ℕ) (silo run now : ℕ) (v : Vault)
    → (tombstone_nodes ids silo run now v).0.items
      ≡ mark_heat_dirty silo
          (tombstone_batch silo now run ids v.items).1
          (map_where (hit silo now run ids) (tombstone_item now run) v.items)
unfolding tombstone_nodes
items-tombstone_nodes [] silo run now v = sym (soil_none silo _ ∙ hit_none silo now run v.items)
items-tombstone_nodes (id ∷ ids) silo run now v =
    mark_anyway silo (tombstone_batch silo now run (id ∷ ids) v.items).1 _
    ∙ ap (mark_heat_dirty silo (tombstone_batch silo now run (id ∷ ids) v.items).1)
        (items-tombstone_batch silo now run (id ∷ ids) v.items)

pub tombstone_nodes-OnlyAt :
    (ids : List ℕ) (silo run now id : ℕ) (v : Vault) (n : Item)
    → OnlyAt v.items id silo n
    → OnlyAt
        (tombstone_nodes ids silo run now v).0.items
        id
        silo
        (if live n && contains id ids then soil (tombstone_item now run n) else n)
unfolding mark_heat_dirty
tombstone_nodes-OnlyAt ids silo run now id v n only =
    ap (keep (keyed id silo)) (items-tombstone_nodes ids silo run now v) ∙ settled
  where
    rows : List ℕ
    rows = (tombstone_batch silo now run ids v.items).1

    hits : Item → Bool
    hits = hit silo now run ids

    marked : Item → Bool
    marked m = (m.silo == silo) && contains m.id rows

    listed : contains id rows ≡ (live n && contains n.id ids)
    listed =
        rows-tombstone_batch silo now run id ids v.items
        ∙ any-regroup id silo (λ m. live m && contains m.id ids) v.items
        ∙ any-keyed (λ m. live m && contains m.id ids) id silo n v.items only

    alone :
        map_where marked soil (map_where hits (tombstone_item now run) (n ∷ []))
        ≡ (if live n && contains id ids then soil (tombstone_item now run n) else n) ∷ []
    alone =
        let at : n.id ≡ id = ==→eq n.id id (ground (arith, keyed_of id silo n v.items only)) in
        let inside : (n.silo == silo) ≡ true = ground (arith, keyed_of id silo n v.items only) in
        let seen : contains n.id rows ≡ (live n && contains n.id ids) =
          subst (λ y. contains y rows ≡ (live n && contains n.id ids)) (sym at) listed in
        rw (sym at) (ground arith)

    settled :
        keep
          (keyed id silo)
          (mark_heat_dirty silo rows (map_where hits (tombstone_item now run) v.items))
        ≡ (if live n && contains id ids then soil (tombstone_item now run n) else n) ∷ []
    settled =
        keep-map_where (keyed id silo) marked soil _ (λ m. refl)
        ∙ ap (map_where marked soil) (
            keep-map_where (keyed id silo) hits (tombstone_item now run) v.items (λ m. refl)
            ∙ ap (map_where hits (tombstone_item now run)) only)
        ∙ alone
