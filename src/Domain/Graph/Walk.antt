-- ===== src/Domain/Graph/Walk.antt =====
-- Walks along a relation of internal/domain/graphbuilder.go.
use svcdoctor.Base.{true, ◌≡◌}
use svcdoctor.Base.Bytes.{member}
use svcdoctor.Domain.Graph.Relation.{EvidenceId, Relation, targets}

-- The walks of a relation from `start`.
pub data Walk (rel : Relation) (start : EvidenceId) : EvidenceId → Type 0 where
  here : Walk rel start start
  step : {u v : EvidenceId} → Walk rel start u → member v (targets rel u) ≡ true → Walk rel start v

module _ (rel : Relation) where
  pub Walk-trans : {a b c : EvidenceId} → Walk rel a b → Walk rel b c → Walk rel a c
  Walk-trans w here = w
  Walk-trans w (step v m) = step (Walk-trans w v) m
