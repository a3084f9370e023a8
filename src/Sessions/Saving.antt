-- ===== src/Sessions/Saving.antt =====
-- Sessions that are saved and read again.
use engrammic.Base.{
  ℕ, ◌+◌, ◌≡◌, refl, sym, ◌∙◌, inl, inr, Bool, true, false, some, [], ◌∷◌, arith, if◌then◌else◌,
  Bool-cases,
}
use engrammic.Sessions.{
  SessionState, Saved, same_key, load, save, get_or_create_session, save_session, increment_turn,
}

same_key-swap : (a b c : ℕ × ℕ) → same_key a b ≡ true → same_key a c ≡ same_key b c
same_key-swap a b c h = ground arith

load-save :
    (k j : ℕ × ℕ) (s : SessionState) (saved : Saved)
    → load j (save k s saved) ≡ (if same_key k j then some s else load j saved)
unfolding load save
load-save k j s [] = refl
load-save k j s ((i, r) ∷ saved) = elim (Bool-cases (same_key i k)) [
  | inl same ↦ rw (same, sym (same_key-swap i k j same)) (if_if (same_key i j))
  | inr other ↦ elim (Bool-cases (same_key i j)) [
    | inl hit ↦ rw (other, hit, apart i k j other hit) refl
    | inr miss ↦ rw (other, miss) (load-save k j s saved)
  ]
]
  where
    if_if :
        (b : Bool)
        → (if b then some s else load j saved)
          ≡ (if b then some s else if b then some r else load j saved)
    if_if true = refl
    if_if false = refl

    apart : (a b c : ℕ × ℕ) → same_key a b ≡ false → same_key a c ≡ true → same_key b c ≡ false
    apart a b c h k = ground arith

self_key : (k : ℕ × ℕ) → same_key k k ≡ true
self_key k = ground arith

-- A session that is saved after a turn is the one that is found for its identifier in its silo
-- again, with the turn counted and nothing written, and what is saved for another identifier or in
-- another silo stays.
pub get_or_create_session-increment_turn :
    (fresh silo now : ℕ) (s : SessionState) (saved : Saved)
    → let (t, later) = increment_turn s silo saved in
      (get_or_create_session fresh (some s.session_id) silo now later ≡ (t, later))
      × (t.turn_count ≡ s.turn_count + 1)
      × ((j : ℕ × ℕ) → same_key (silo, s.session_id) j ≡ false → load j later ≡ load j saved)
unfolding increment_turn save_session get_or_create_session
get_or_create_session-increment_turn fresh silo now s saved = (
  rw (found, get_or_create_session) refl,
  refl,
  λ j other. load-save (silo, s.session_id) j t saved ∙ rw other refl,
)
  where
    t : SessionState
    t = record s { turn_count = s.turn_count + 1 }

    found : load (silo, s.session_id) (save (silo, s.session_id) t saved) ≡ some t
    found =
        load-save (silo, s.session_id) (silo, s.session_id) t saved
        ∙ rw (self_key (silo, s.session_id)) refl
