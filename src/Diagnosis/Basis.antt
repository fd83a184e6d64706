-- ===== src/Diagnosis/Basis.antt =====
-- internal/diagnosis/basis.go: what a claim rests on, and `BasisBuilder`. A nil slice and an empty
-- one are one list here.
pub mod Citable
use svcdoctor.Base.{Bool, true, false, not, List, [], ◌∷◌, ◌++◌, if◌then◌else◌}
use svcdoctor.Base.Bytes.{Bytes, member, sort}
use svcdoctor.Base.Result.{Result, ok, err, ◌>>=◌, ◌>>◌, reject, is_ok}
use svcdoctor.Domain.Names.{validate_dotted_name}
use svcdoctor.Domain.Graph.Relation.{EvidenceId, targets}
use svcdoctor.Domain.Graph.Builder.{Graph, has}

-- `EvidenceBasis`, and `BasisBuilder`, which has the same fields.
pub record EvidenceBasis : Type 0 where
  pub supporting : List EvidenceId
  pub contradicting : List EvidenceId
  pub blocked : List EvidenceId
  pub missing : List Bytes

-- Each wraps `ErrInvalidBasis`.
pub data BasisError : Type 0 where
  not_in_graph both_relations nothing_blocks did_not_run not_a_step : BasisError

unfoldable pub new_basis : EvidenceBasis
new_basis = record { supporting = []; contradicting = []; blocked = []; missing = [] }

unfoldable pub support : EvidenceBasis → List EvidenceId → EvidenceBasis
support b ids = record b { supporting = b.supporting ++ ids }

unfoldable pub contradict : EvidenceBasis → List EvidenceId → EvidenceBasis
contradict b ids = record b { contradicting = b.contradicting ++ ids }

unfoldable pub block : EvidenceBasis → List EvidenceId → EvidenceBasis
block b ids = record b { blocked = b.blocked ++ ids }

unfoldable pub miss : EvidenceBasis → List Bytes → EvidenceBasis
miss b steps = record b { missing = b.missing ++ steps }

-- The loop of `normalizeBasisIDs` and `normalizeMissing`, with `out`.
unfoldable pub collect_distinct :
    (Bytes → Result BasisError (Unit {0}))
    → List Bytes
    → List Bytes
    → Result BasisError (List Bytes)
collect_distinct check out [] = ok out
collect_distinct check out (id ∷ ids) = do
  check id
  collect_distinct check (if member id out then out else out ++ id ∷ []) ids

abbrev pub check_node : Graph → EvidenceId → Result BasisError (Unit {0})
check_node g id = reject (not (has g.nodes id)) not_in_graph

unfoldable pub normalize_basis_ids : Graph → List EvidenceId → Result BasisError (List EvidenceId)
unfolding collect_distinct
normalize_basis_ids g ids = do out ← collect_distinct (check_node g) [] ids; ok (sort out)

abbrev pub check_step : Bytes → Result BasisError (Unit {0})
check_step step = reject (not (is_ok (validate_dotted_name step))) not_a_step

unfoldable pub normalize_missing : List Bytes → Result BasisError (List Bytes)
unfolding collect_distinct
normalize_missing steps = do out ← collect_distinct check_step [] steps; ok (sort out)

-- One pair of the loop over relations that may share no id.
unfoldable pub check_disjoint : List EvidenceId → List EvidenceId → Result BasisError (Unit {0})
check_disjoint [] right = ok tt
check_disjoint (id ∷ left) right = do
  reject (member id right) both_relations
  check_disjoint left right

-- `len(g.BlockedBy(id)) > 0`
abbrev pub is_blocked : Graph → EvidenceId → Bool
is_blocked g id = elim (targets g.blocked_by id) [ [] ↦ false | _ ∷ _ ↦ true ]

unfoldable pub check_blocked : Graph → List EvidenceId → Result BasisError (Unit {0})
check_blocked g [] = ok tt
check_blocked g (id ∷ ids) = do reject (not (is_blocked g id)) nothing_blocks; check_blocked g ids

unfoldable pub check_ran : Graph → List EvidenceId → Result BasisError (Unit {0})
check_ran g [] = ok tt
check_ran g (id ∷ ids) = do reject (is_blocked g id) did_not_run; check_ran g ids

-- `BasisBuilder.Freeze`
unfoldable pub freeze_basis : Graph → EvidenceBasis → Result BasisError EvidenceBasis
unfolding normalize_basis_ids normalize_missing check_disjoint check_blocked check_ran
freeze_basis g b = do
  supporting ← normalize_basis_ids g b.supporting
  contradicting ← normalize_basis_ids g b.contradicting
  blocked ← normalize_basis_ids g b.blocked
  check_disjoint supporting contradicting
  check_disjoint supporting blocked
  check_disjoint contradicting blocked
  check_blocked g blocked
  check_ran g supporting
  check_ran g contradicting
  missing ← normalize_missing b.missing
  ok (record {
    supporting = supporting;
    contradicting = contradicting;
    blocked = blocked;
    missing = missing;
  })
