-- ===== src/Graph/Thinning.antt =====
-- Changes of the store that take no new edge in.
use mathlib.Core.List.{Memᴰ}
use mathlib.Core.List.Memᴰ
use mathlib.Core.Path.{subst}
use engrammic.Base.{◌≡◌, refl, inl, inr, Bool, List, [], ◌∷◌, Bool-cases, keep}
use engrammic.Graph.{Store, Edge}

-- Every edge after is an edge before.
abbrev pub Thins : Store → Store → Type 0
Thins st st' = (e : Edge) → Memᴰ e st'.edges → Memᴰ e st.edges

pub same-Thins : (st st' : Store) → st'.edges ≡ st.edges → Thins st st'
same-Thins st st' h e m = subst (Memᴰ e) h m

keep-sub : (p : Edge → Bool) (e : Edge) (es : List Edge) → Memᴰ e (keep p es) → Memᴰ e es
keep-sub p e [] m = m
keep-sub p e (x ∷ es) m = elim (Bool-cases (p x)) [
  | inl yes_ ↦ elim (Memᴰ.cases_cons (subst (Memᴰ e) (rw yes_ refl) m)) [
    | inl same ↦ Memᴰ.head same
    | inr rest ↦ Memᴰ.tail (keep-sub p e es rest)
  ]
  | inr not_ ↦ Memᴰ.tail (keep-sub p e es (subst (Memᴰ e) (rw not_ refl) m))
]

-- The edges after are a selection of those before.
pub keep-Thins : (st st' : Store) (p : Edge → Bool) → st'.edges ≡ keep p st.edges → Thins st st'
keep-Thins st st' p h e m = keep-sub p e st.edges (subst (Memᴰ e) h m)

pub Thins-trans : (st st' st'' : Store) → Thins st st' → Thins st' st'' → Thins st st''
Thins-trans st st' st'' f g e m = f e (g e m)
