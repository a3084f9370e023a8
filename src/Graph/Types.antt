-- ===== src/Graph/Types.antt =====
-- The codes of the edge types.
use engrammic.Base.{ℕ, ◌≡◌, refl, sym, ap, ◌∙◌, ◌==◌, if◌then◌else◌}
use engrammic.Graph.{
  LinkType, related_to, contradicts, supports, refines, generalizes, caused_by, temporal_before,
  temporal_after, references, derived_from, causes, prevents, supersedes, link_code,
}

abbrev of_code : ℕ → LinkType
of_code n =
    if n == 0
    then related_to
    else if n == 1
    then contradicts
    else if n == 2
    then supports
    else if n == 3
    then refines
    else if n == 4
    then generalizes
    else if n == 5
    then caused_by
    else if n == 6
    then temporal_before
    else if n == 7
    then temporal_after
    else if n == 8
    then references
    else if n == 9
    then derived_from
    else if n == 10
    then causes
    else if n == 11
    then prevents
    else supersedes

of_code-link_code : (t : LinkType) → of_code (link_code t) ≡ t
of_code-link_code related_to = refl
of_code-link_code t = refl

pub link_code_injective : (s t : LinkType) → link_code s ≡ link_code t → s ≡ t
link_code_injective s t h = sym (of_code-link_code s) ∙ ap of_code h ∙ of_code-link_code t
