-- ===== src/Reactions/Flushing.antt =====
-- What a flush upserts.
use engrammic.Base.{
  ℕ, ◌≡◌, refl, sym, ap, ◌∙◌, inl, inr, true, Option, some, List, [], ◌∷◌, ◌++◌, map, if◌then◌else◌,
  ==_self, Bool-cases, length, is_empty,
}
use engrammic.Reactions.{
  PendingItem, Fetched, raised, missing, found, Valid, fetch_one, fetch_batch, Upsert, zip_upserts,
  flush,
}

module _ {ℓ} {V : Type ℓ} where
  -- What one item comes to, for a vector for each text.
  abbrev pub upsert_of : (List ℕ → V) → PendingItem → Fetched → List (Upsert V)
  upsert_of e item raised = []
  upsert_of e item missing = []
  upsert_of e item (found c) =
      if is_empty c.content
      then []
      else record { item = item; vector = e c.content; node_type = c.type } ∷ []

  abbrev pub upserts_of :
      (PendingItem → Fetched) → (List ℕ → V) → List PendingItem → List (Upsert V)
  upserts_of get_node e [] = []
  upserts_of get_node e (item ∷ batch) =
      upsert_of e item (get_node item) ++ upserts_of get_node e batch

  length-map-text :
      (e : List ℕ → V) (xs : List Valid) → length (map e (map (λ x. x.text) xs)) ≡ length xs
  length-map-text e [] = refl
  length-map-text e (x ∷ xs) = rw (length-map-text e xs) refl

  zip_upserts-fetch_one :
      (e : List ℕ → V) (item : PendingItem) (f : Fetched) (rest : List Valid)
      → zip_upserts
          (fetch_one item f ++ rest)
          (map e (map (λ x. x.text) (fetch_one item f ++ rest)))
        ≡ upsert_of e item f ++ zip_upserts rest (map e (map (λ x. x.text) rest))
  unfolding zip_upserts
  zip_upserts-fetch_one e item raised rest = refl
  zip_upserts-fetch_one e item missing rest = refl
  zip_upserts-fetch_one e item (found c) rest = elim (Bool-cases (is_empty c.content)) [
    | inl none_there ↦ rw none_there refl
    | inr there ↦ rw there refl
  ]

  zip_upserts-fetch_batch :
      (get_node : PendingItem → Fetched) (e : List ℕ → V) (batch : List PendingItem)
      → zip_upserts
          (fetch_batch get_node batch)
          (map e (map (λ x. x.text) (fetch_batch get_node batch)))
        ≡ upserts_of get_node e batch
  unfolding zip_upserts fetch_batch
  zip_upserts-fetch_batch get_node e [] = refl
  zip_upserts-fetch_batch get_node e (item ∷ batch) =
      rw (zip_upserts-fetch_one e item (get_node item) (fetch_batch get_node batch))
        (ap (λ l. upsert_of e item (get_node item) ++ l) (zip_upserts-fetch_batch get_node e batch))

  -- Where the services are configured and the embedding service gives for each text its vector, a
  -- flush upserts exactly the items whose node is there with a content, in order, each with the
  -- vector of its own content and with its own node's type.
  pub flush-upserts_of :
      (get_node : PendingItem → Fetched) (embed : List (List ℕ) → Option (List V)) (e : List ℕ → V)
      (batch : List PendingItem)
      → ((texts : List (List ℕ)) → embed texts ≡ some (map e texts))
      → flush true get_node embed batch ≡ upserts_of get_node e batch
  unfolding flush zip_upserts
  flush-upserts_of get_node embed e batch each = elim (Bool-cases (is_empty valid)) [
    | inl none_there ↦ rw none_there (sym (nothing valid none_there) ∙ aligned)
    | inr there ↦
        rw (there, each (map (λ x. x.text) valid), length-map-text e valid, ==_self (length valid))
          aligned
  ]
    where
      valid : List Valid
      valid = fetch_batch get_node batch

      aligned : zip_upserts valid (map e (map (λ x. x.text) valid)) ≡ upserts_of get_node e batch
      aligned = zip_upserts-fetch_batch get_node e batch

      nothing :
          (xs : List Valid)
          → is_empty xs ≡ true
          → zip_upserts xs (map e (map (λ x. x.text) xs)) ≡ []
      nothing [] h = refl
      nothing (x ∷ xs) h = cc
