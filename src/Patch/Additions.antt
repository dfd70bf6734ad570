-- ===== src/Patch/Additions.antt =====
-- What the loop over the additions does in `apply_patch` (app/planner/patch.py).
use project_os.Base.{
  ℕ, suc, String, ◌≡◌, refl, ap, ◌∙◌, true, false, not, ◌&&◌, ◌||◌, Option, List, [], ◌∷◌, ◌++◌,
  string_eq, elem, elem-append, subset, subst, all, ◌>>◌, distinct, length, ok, >>-eq-ok, >>=-eq-ok,
  refuse_if, refuse_if-eq-ok, arith, inl, inr, Option-cases,
}
use project_os.WorkItem.{WorkItem, Digest}
use project_os.WorkItem.Init.{init}
use project_os.WorkItem.Kept.{init_keeps}
use project_os.Plan.{item_ids}
use project_os.Agents.{AgentDefinition}
use project_os.Patch.{
  PatchOperation, addition, raising, item_error, given, incomplete_addition, unknown_dependency,
  id_taken,
}
use project_os.Patch.Apply.{add_item, add_items, text_of, patch_id, patch_output_key}
use project_os.Patch.Revisions.{raising-eq-ok}

module _ (digest : Digest) (agents : String → Option AgentDefinition) where
  -- An addition has an id that no item has.
  add_item_lem :
      (index : ℕ) (existing : List String) (op : PatchOperation) {item : WorkItem}
      → add_item digest agents index existing op ≡ ok item
      → elem item.id existing ≡ false
  add_item_lem index existing op {item} h =
      let (c, h1) =
        >>-eq-ok
          (refuse_if (not (given op.ref) || not (given op.agent_id) || not (given op.objective))
            incomplete_addition)
          _ h in
      elim (Option-cases (agents (text_of op.agent_id))) [
        | inl n ↦ absurd (let refused = rw n at h1 in cc)
        | inr (definition, d) ↦ fresh definition (rw d at h1)
      ]
    where
      fresh :
          (definition : AgentDefinition)
          → (refuse_if (not (subset op.depends_on existing)) unknown_dependency
              >> (refuse_if
                    (elem (patch_id index definition) existing)
                    (id_taken (patch_id index definition))
                  >> raising item_error (
                      init digest (
                        addition
                          (patch_id index definition)
                          (text_of op.agent_id)
                          (text_of op.objective)
                          definition
                          (patch_output_key index definition)
                          op.depends_on))))
            ≡ ok item
          → elem item.id existing ≡ false
      fresh definition h =
          let (c1, h1) =
            >>-eq-ok (refuse_if (not (subset op.depends_on existing)) unknown_dependency) _ h in
          let (c2, h2) =
            >>-eq-ok
              (refuse_if (elem (patch_id index definition) existing)
                (id_taken (patch_id index definition)))
              _ h1 in
          let made =
            addition (patch_id index definition) (text_of op.agent_id) (text_of op.objective)
              definition (patch_output_key index definition) op.depends_on in
          let (key, deps, mode) =
            init_keeps digest made (raising-eq-ok item_error (init digest made) h2) in
          ap (λ k. elem k existing) key
          ∙ refuse_if-eq-ok (elem (patch_id index definition) existing) _ c2

  -- Additions are as many as their operations; their ids are new, and distinct.
  pub add_items_lem :
      (index : ℕ) (existing : List String) (operations : List PatchOperation)
      {items : List WorkItem}
      → add_items digest agents index existing operations ≡ ok items
      → (length items ≡ length operations)
        × (all (λ key. not (elem key existing)) (item_ids items) ≡ true)
        × (distinct (item_ids items) ≡ true)
  unfolding add_items
  add_items_lem index existing [] h = (ground arith, ground arith, ground arith)
  add_items_lem index existing (op ∷ operations) {items} h =
      let (item, i, h1) = >>=-eq-ok (add_item digest agents index existing op) _ h in
      let (rest, r, h2) =
        >>=-eq-ok (add_items digest agents (suc index) (existing ++ item.id ∷ []) operations) _
          h1 in
      let (l, f, d) = add_items_lem (suc index) (existing ++ item.id ∷ []) operations r in
      let fresh = add_item_lem index existing op i in
      let same : item ∷ rest ≡ items = cc in
      subst
        (λ (made : List WorkItem).
          (length made ≡ suc (length operations))
          × (all (λ key. not (elem key existing)) (item_ids made) ≡ true)
          × (distinct (item_ids made) ≡ true))
        same
        (
          ap suc l,
          rw fresh (older item.id existing (item_ids rest) f),
          newer item.id existing (item_ids rest) f d,
        )
    where
      older :
          (key : String) (known keys : List String)
          → all (λ k. not (elem k (known ++ key ∷ []))) keys ≡ true
          → all (λ k. not (elem k known)) keys ≡ true
      older key known [] h = refl
      older key known (k ∷ keys) h =
          ground (arith, elem-append k known (key ∷ []), older key known keys)

      newer :
          (key : String) (known keys : List String)
          → all (λ k. not (elem k (known ++ key ∷ []))) keys ≡ true
          → distinct keys ≡ true
          → (not (elem key keys) && distinct keys) ≡ true
      newer key known [] h d = refl
      newer key known (k ∷ keys) h d = ground (
        arith,
        elem-append k known (key ∷ []),
        newer key known keys,
        string_eq.beq_iff k key,
        string_eq.beq_iff key k,
      )
