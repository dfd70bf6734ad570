-- ===== src/Delivery/Evidence.antt =====
-- Binding a unit or an evidence to requirements adds it, and loses none that was bound before.
use project_os.Base.{
  String, ◌≡◌, refl, ap, Bool, true, false, not, ◌&&◌, ◌||◌, some, List, [], ◌∷◌, ◌==◌, string_eq,
  elem, subset, subset_intro, subset-elem, lookup, lookup-insert, if◌then◌else◌, Option-cases,
  Bool-cases, inl, inr, arith,
}
use project_os.Delivery.Matrix.{
  RequirementRecord, TraceabilityMatrix, replace_one, replace_all, add_once, elem-add_once,
  with_evidence, bind_evidence,
}

-- The units and the evidences of the first are those of the second.
abbrev pub grows : RequirementRecord → RequirementRecord → Bool
grows before after =
    subset before.implementation_units after.implementation_units
    && subset before.test_evidence_ids after.test_evidence_ids
    && subset before.runtime_evidence_ids after.runtime_evidence_ids

subset_refl : (xs : List String) → subset xs xs ≡ true
subset_refl xs = subset_intro xs xs (λ x m. m)

subset_trans :
    (xs ys zs : List String) → subset xs ys ≡ true → subset ys zs ≡ true → subset xs zs ≡ true
subset_trans xs ys zs h k =
    subset_intro xs zs (λ x m. subset-elem x ys zs k (subset-elem x xs ys h m))

and_three : (a b c : Bool) → a ≡ true → b ≡ true → c ≡ true → (a && b && c) ≡ true
and_three a b c h k l = ground arith

split_three : (a b c : Bool) → (a && b && c) ≡ true → (a ≡ true) × (b ≡ true) × (c ≡ true)
split_three a b c h = ground arith

grows_parts :
    (r s : RequirementRecord)
    → grows r s ≡ true
    → (subset r.implementation_units s.implementation_units ≡ true)
      × (subset r.test_evidence_ids s.test_evidence_ids ≡ true)
      × (subset r.runtime_evidence_ids s.runtime_evidence_ids ≡ true)
grows_parts r s g = split_three _ _ _ g

grows_refl : (r : RequirementRecord) → grows r r ≡ true
grows_refl r =
    and_three _ _ _ (subset_refl r.implementation_units) (subset_refl r.test_evidence_ids)
      (subset_refl r.runtime_evidence_ids)

grows_trans : (r s t : RequirementRecord) → grows r s ≡ true → grows s t ≡ true → grows r t ≡ true
grows_trans r s t h k =
    let (a, b, c) = grows_parts r s h in
    let (a', b', c') = grows_parts s t k in
    and_three _ _ _
      (subset_trans r.implementation_units s.implementation_units t.implementation_units a a')
      (subset_trans r.test_evidence_ids s.test_evidence_ids t.test_evidence_ids b b')
      (subset_trans r.runtime_evidence_ids s.runtime_evidence_ids t.runtime_evidence_ids c c')

subset-add_once :
    (value : String) (values : List String) → subset values (add_once value values) ≡ true
subset-add_once value values =
    subset_intro values (add_once value values) (λ x m. rw (elem-add_once x value values, m) refl)

module _ (f : RequirementRecord → RequirementRecord)
    (grown : (r : RequirementRecord) → grows r (f r) ≡ true) (value : String)
    (values : RequirementRecord → List String)
    (added : (r : RequirementRecord) → elem value (values (f r)) ≡ true)
    (kept : (r s : RequirementRecord)
      → grows r s ≡ true
      → subset (values r) (values s) ≡ true) where
  -- One replacement changes the record under its id, and no other.
  lookup-replace_one :
      (id key : String) (matrix : TraceabilityMatrix) {r : RequirementRecord}
      → lookup key matrix ≡ some r
      → lookup key (replace_one f id matrix) ≡ some (if key == id then f r else r)
  lookup-replace_one id key matrix {r} h = elim (Option-cases (lookup id matrix)) [
    | inl missing ↦ elim (Bool-cases (key == id)) [
      | inl t ↦ absurd (cc (ap (λ k. lookup k matrix) ((string_eq.beq_iff key id).0 t)))
      | inr other ↦ rw (replace_one, missing, other) h
    ]
    | inr (s, found) ↦ elim (Bool-cases (key == id)) [
      | inl t ↦
          let same : s ≡ r = cc (ap (λ k. lookup k matrix) ((string_eq.beq_iff key id).0 t)) in
          rw (replace_one, found, lookup-insert id key (f s) matrix, t, same) refl
      | inr other ↦ rw (replace_one, found, lookup-insert id key (f s) matrix, other) h
    ]
  ]

  lookup-replace_all :
      (ids : List String) (key : String) (matrix : TraceabilityMatrix) {r : RequirementRecord}
      → lookup key matrix ≡ some r
      → (s : RequirementRecord) × (lookup key (replace_all f ids matrix) ≡ some s)
        × (grows r s ≡ true)
        × ((not (elem key ids) || elem value (values s)) ≡ true)
  unfolding replace_all
  lookup-replace_all [] key matrix {r} h = (r, h, grows_refl r, refl)
  lookup-replace_all (id ∷ ids) key matrix {r} h = elim (Bool-cases (key == id)) [
    | inl t ↦
        let there : lookup key (replace_one f id matrix) ≡ some (f r) =
          rw t at (lookup-replace_one id key matrix h) in
        let (s, p, g, e) = lookup-replace_all ids key (replace_one f id matrix) there in
        (
          s,
          p,
          grows_trans r (f r) s (grown r) g,
          or_right _ _ (subset-elem value (values (f r)) (values s) (kept (f r) s g) (added r)),
        )
    | inr other ↦
        let there : lookup key (replace_one f id matrix) ≡ some r =
          rw other at (lookup-replace_one id key matrix h) in
        let (s, p, g, e) = lookup-replace_all ids key (replace_one f id matrix) there in
        (s, p, g, skip (key == id) (elem key ids) (elem value (values s)) other e)
  ]
    where
      or_right : (a b : Bool) → b ≡ true → (a || b) ≡ true
      or_right a b h = ground arith

      skip : (a b c : Bool) → a ≡ false → (not b || c) ≡ true → (not (a || b) || c) ≡ true
      skip a b c n h = ground arith

-- The evidences of the kind that is bound.
abbrev pub evidence : Bool → RequirementRecord → List String
evidence runtime requirement =
    if runtime then requirement.runtime_evidence_ids else requirement.test_evidence_ids

grows-with_evidence :
    (id : String) (runtime : Bool) (r : RequirementRecord)
    → grows r (with_evidence id runtime r) ≡ true
grows-with_evidence id true r =
    and_three _ _ _ (subset_refl r.implementation_units) (subset_refl r.test_evidence_ids)
      (subset-add_once id r.runtime_evidence_ids)
grows-with_evidence id false r =
    and_three _ _ _ (subset_refl r.implementation_units) (subset-add_once id r.test_evidence_ids)
      (subset_refl r.runtime_evidence_ids)

elem-with_evidence :
    (id : String) (runtime : Bool) (r : RequirementRecord)
    → elem id (evidence runtime (with_evidence id runtime r)) ≡ true
elem-with_evidence id true r =
    rw (elem-add_once id id r.runtime_evidence_ids, (string_eq.beq_iff id id).1 refl)
      (or_true (elem id r.runtime_evidence_ids))
  where
    or_true : (a : Bool) → (a || true) ≡ true
    or_true a = ground arith
elem-with_evidence id false r =
    rw (elem-add_once id id r.test_evidence_ids, (string_eq.beq_iff id id).1 refl)
      (or_true (elem id r.test_evidence_ids))
  where
    or_true : (a : Bool) → (a || true) ≡ true
    or_true a = ground arith

subset-evidence :
    (runtime : Bool) (r s : RequirementRecord)
    → grows r s ≡ true
    → subset (evidence runtime r) (evidence runtime s) ≡ true
subset-evidence true r s g = (grows_parts r s g).2
subset-evidence false r s g = (grows_parts r s g).1

-- A requirement that is registered stays so, loses no unit and no evidence, and has the new evidence
-- if it is one of those that it is bound to.
pub bind_evidence_lem :
    (requirement_ids : List String) (evidence_id : String) (runtime : Bool)
    (matrix : TraceabilityMatrix) (key : String) {r : RequirementRecord}
    → lookup key matrix ≡ some r
    → (s : RequirementRecord) × (lookup key
          (bind_evidence requirement_ids evidence_id runtime matrix)
        ≡ some s)
      × (grows r s ≡ true)
      × ((not (elem key requirement_ids) || elem evidence_id (evidence runtime s)) ≡ true)
unfolding bind_evidence
bind_evidence_lem requirement_ids evidence_id runtime matrix key h =
    lookup-replace_all (with_evidence evidence_id runtime) (grows-with_evidence evidence_id runtime)
      evidence_id (evidence runtime) (elem-with_evidence evidence_id runtime)
      (subset-evidence runtime) requirement_ids key matrix h
