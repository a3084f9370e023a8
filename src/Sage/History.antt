-- ===== src/Sage/History.antt =====
-- Histories: transactions of the knowledge graph one after the other, each committed.
pub mod Hierarchy
pub mod Tests
use engrammic.Base.{ℕ, ◌≡◌, ◌≢◌, Bool, Option, List}
use engrammic.Graph.{Store, LinkType, SupersedeReason}
use engrammic.Vectors.{DeadLetter}
use engrammic.Sage.Results.{ok, Event}
use engrammic.Sage.Supersession.{supersede}
use engrammic.Sage.Linking.{link}
use engrammic.Sage.Cascade.{cascade}
use engrammic.Sage.Forgetting.{Outside, Forgotten, forget, cancel_forget}
use engrammic.Sage.Collection.{Fault, hard_delete}
use engrammic.Sage.Promotion.{Model, Promoted, promote}
use engrammic.Sage.Demotion.{Demoted, demote}
use engrammic.Sage.Corroboration.{Triple}
use engrammic.Sage.Storing.{ClaimRequest, StoreClaimResult, store_claim}
use engrammic.Sage.Storing.Hierarchy.{Fresh}

-- One transaction. A supersession or a link joins two different nodes: the code does not ask for it.
-- A claim is stored under an identifier that nothing uses yet, as `uuid4` gives it.
pub data Step (st : Store) : Store → Type 0 where
  superseded_by :
      (winner loser silo : ℕ) (reason : SupersedeReason) (now : ℕ) (st' : Store)
      (events : List Event)
      → winner ≢ loser
      → supersede st winner loser silo reason now ≡ ok (st', events)
      → Step st st'
  linked :
      (scores : Store → ℕ → ℕ → List (ℕ × ℕ)) (source target : ℕ) (type : LinkType)
      (silo weight : ℕ) (st' : Store) (events : List Event)
      → source ≢ target
      → link scores st source target type silo weight ≡ ok (st', events)
      → Step st st'
  cascaded : (fails : ℕ → Bool) (silo now node : ℕ) → Step st (cascade fails silo now node st).store
  forgotten :
      (out : Outside) (queue : List DeadLetter) (id silo : ℕ) (wants_cascade : Bool) (now later : ℕ)
      (f : Forgotten)
      → forget out st queue id silo wants_cascade now later ≡ ok f
      → Step st f.store
  cancelled : (id silo first second : ℕ) → Step st (cancel_forget st id silo first second).0
  collected :
      (faults : ℕ → Fault) (silo now batch_size : ℕ)
      → Step st (hard_delete faults st silo now batch_size).store
  promoted_at :
      (cleanup_fails : Bool) (llm : Option Model) (id silo : ℕ) (passed : Option ℕ) (st' : Store)
      (r : Option Promoted)
      → promote cleanup_fails llm st id silo passed ≡ ok (st', r)
      → Step st st'
  demoted_at : (id silo : ℕ) (d : Demoted) → demote st id silo ≡ ok d → Step st d.store
  claimed :
      (triple_close : Triple → Triple → Bool) (content_close : List ℕ → List ℕ → Bool)
      (enforced with_service : Bool) (r : ClaimRequest) (id silo now : ℕ) (st' : Store)
      (result : StoreClaimResult) (events : List Event)
      → Fresh st id r
      → store_claim triple_close content_close enforced with_service st r id silo now
        ≡ ok (st', result, events)
      → Step st st'

pub data History (st : Store) : Store → Type 0 where
  start : History st st
  next : {st' st'' : Store} → History st st' → Step st' st'' → History st st''
