-- ===== src/Coherence.antt =====
-- retrieval/coherence.py: of two results that contradict each other, the dominated one is dropped.
-- A result's layer is `none` where it is missing or is none of the four names, which rank alike; a
-- confidence counts thousandths, and a missing one or 0 are the same to the source.
pub mod Settling
pub mod Winners
pub mod Tests
use engrammic.Base.{
  ℕ, Bool, true, false, not, Option, none, some, List, [], ◌∷◌, ltb, ◌==◌, if◌then◌else◌,
  or_default, length, keep, contains,
}
use engrammic.Graph.{Layer, memory, knowledge, wisdom, intelligence}

pub record Hit : Type 0 where
  pub node_id : Option ℕ
  pub layer : Option Layer
  pub confidence : Option ℕ
  pub created_at : Option ℕ
  pub contradicts : List ℕ

-- LAYER_ORDER, and 0 for what it does not list.
abbrev pub get_layer_rank : Option Layer → ℕ
get_layer_rank none = 0
get_layer_rank (some wisdom) = 4
get_layer_rank (some knowledge) = 3
get_layer_rank (some memory) = 2
get_layer_rank (some intelligence) = 1

abbrev pub more_recent : Option ℕ → Option ℕ → Bool
more_recent none b = false
more_recent (some a) none = false
more_recent (some a) (some b) = ltb b a

pub dominates : Hit → Hit → Bool
dominates a b =
    let a_rank = get_layer_rank a.layer in
    let b_rank = get_layer_rank b.layer in
    let a_conf = or_default a.confidence 0 in
    let b_conf = or_default b.confidence 0 in
    if ltb b_rank a_rank
    then true
    else if ltb a_rank b_rank
    then false
    else if ltb b_conf a_conf
    then true
    else if ltb a_conf b_conf
    then false
    else more_recent a.created_at b.created_at

-- A dictionary with its keys in the order in which they were first put.
abbrev pub Table : Type 0
Table = List (ℕ × Hit)

pub put : ℕ → Hit → Table → Table
put id r [] = (id, r) ∷ []
put id r ((k, v) ∷ t) = if k == id then (k, r) ∷ t else (k, v) ∷ put id r t

pub get : ℕ → Table → Option Hit
get id [] = none
get id ((k, v) ∷ t) = if k == id then some v else get id t

-- `{r["node_id"]: r for r in results if "node_id" in r}`
pub fill : List Hit → Table → Table
fill [] t = t
fill (r ∷ rs) t = elim r.node_id [ none ↦ fill rs t | some id ↦ fill rs (put id r t) ]

pub by_id : List Hit → Table
unfolding fill put
by_id rs = fill rs []

-- The body of the inner loop: one pair.
pub compare_pair : Table → ℕ → Hit → ℕ → List ℕ → List ℕ
compare_pair t node_id node other_id dominated = elim (get other_id t) [
  | none ↦ dominated
  | some other ↦
      if contains other_id dominated
      then dominated
      else if contains node_id dominated
      then dominated
      else if dominates node other
      then other_id ∷ dominated
      else if dominates other node
      then node_id ∷ dominated
      else dominated
]

pub compare_others : Table → ℕ → Hit → List ℕ → List ℕ → List ℕ
compare_others t node_id node [] dominated = dominated
compare_others t node_id node (o ∷ os) dominated =
    compare_others t node_id node os (compare_pair t node_id node o dominated)

pub compare_all : Table → Table → List ℕ → List ℕ
compare_all t [] dominated = dominated
compare_all t ((node_id, node) ∷ rest) dominated =
    compare_all t rest (compare_others t node_id node node.contradicts dominated)

pub dominated_ids : List Hit → List ℕ
unfolding compare_all compare_others compare_pair
dominated_ids rs = compare_all (by_id rs) (by_id rs) []

abbrev pub stays : List ℕ → Hit → Bool
stays dominated r = elim r.node_id [ none ↦ true | some id ↦ not (contains id dominated) ]

pub filter_dominated_contradictions : List Hit → List Hit × ℕ
unfolding dominated_ids
filter_dominated_contradictions [] = ([], 0)
filter_dominated_contradictions (r ∷ rs) = elim (dominated_ids (r ∷ rs)) [
  | [] ↦ (r ∷ rs, 0)
  | d ∷ ds ↦ (keep (stays (d ∷ ds)) (r ∷ rs), length (d ∷ ds))
]
