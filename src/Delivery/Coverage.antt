-- ===== src/Delivery/Coverage.antt =====
-- `TraceabilityMatrix.incomplete` and `coverage_summary` (app/orchestration/delivery.py). The sorting
-- of the incomplete ids is left out, and so are the rates, which are quotients of the counts.
use project_os.Base.{
  ℕ, ◌≤◌, ◌≡◌, refl, Bool, not, ◌&&◌, ◌||◌, String, List, [], ◌∷◌, filter, count_if, length,
  is_empty, keys, nat_eq, ◌==◌, arith,
}
use project_os.Delivery.Matrix.{RequirementRecord, TraceabilityMatrix}

abbrev pub is_incomplete : RequirementRecord → Bool
is_incomplete r =
    is_empty r.implementation_units
    || is_empty r.test_evidence_ids
    || is_empty r.runtime_evidence_ids

-- The ids of the incomplete requirements, in the order of the matrix.
unfoldable pub incomplete : TraceabilityMatrix → List String
incomplete matrix = keys (filter (λ entry. is_incomplete entry.1) matrix)

pub record CoverageSummary : Type 0 where
  pub total : ℕ
  pub implemented : ℕ
  pub tested : ℕ
  pub runtime_verified : ℕ
  pub complete : Bool

unfoldable pub coverage_summary : TraceabilityMatrix → CoverageSummary
unfolding incomplete
coverage_summary matrix = record {
  total = length matrix;
  implemented = count_if (λ entry. not (is_empty entry.1.implementation_units)) matrix;
  tested = count_if (λ entry. not (is_empty entry.1.test_evidence_ids)) matrix;
  runtime_verified = count_if (λ entry. not (is_empty entry.1.runtime_evidence_ids)) matrix;
  complete = is_empty (incomplete matrix);
}

-- The counts are at most the total.
count_if-le {ℓ} : {A : Type ℓ} (p : A → Bool) (xs : List A) → count_if p xs ≤ length xs
count_if-le p [] = omega arith
count_if-le p (x ∷ xs) = ground (arith, count_if-le p xs)

-- The summary of a matrix says that it is complete exactly where each of its three counts is the
-- total.
pub coverage_summary_lem :
    (matrix : TraceabilityMatrix)
    → (coverage_summary matrix).complete ≡ (
        (coverage_summary matrix).implemented == (coverage_summary matrix).total
        && (coverage_summary matrix).tested == (coverage_summary matrix).total
        && (coverage_summary matrix).runtime_verified == (coverage_summary matrix).total)
unfolding coverage_summary incomplete
coverage_summary_lem [] = refl
coverage_summary_lem ((id, r) ∷ matrix) = ground (
  arith,
  coverage_summary_lem matrix,
  count_if-le (λ (entry : String × RequirementRecord). not (is_empty entry.1.implementation_units))
      matrix,
  count_if-le (λ (entry : String × RequirementRecord). not (is_empty entry.1.test_evidence_ids))
      matrix,
  count_if-le (λ (entry : String × RequirementRecord). not (is_empty entry.1.runtime_evidence_ids))
      matrix,
)
