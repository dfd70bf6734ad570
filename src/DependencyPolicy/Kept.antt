-- ===== src/DependencyPolicy/Kept.antt =====
-- Every step of `resolve` keeps the dependencies that there are (app/planner/dependency_policy.py).
use project_os.Base.{
  String, ◌≡◌, refl, true, false, Option, none, some, List, [], ◌∷◌, Memᴰ, ◌==◌, string_eq, find?,
  is_empty, ok, >>-eq-ok, >>=-eq-ok, Dict, lookup, inl, inr, Bool-cases, ap, subst, sym, ◌∙◌,
  Result,
}
use project_os.WorkItem.{template}
use project_os.DependencyPolicy.{
  PlannedStep, PlanDraft, TemplateHint, TemplateNodeHint, PolicyError, Table, get, add_dependency,
}
use project_os.DependencyPolicy.Resolve.{
  Edge, has_edge, add_planned, add_steps, add_predecessor, add_predecessors, add_template_steps,
  add_template, add_at_node, validate_overrides, template_edges, override_edges, agent_items,
  template_rule, template_context,
}
use project_os.DependencyPolicy.Growth.{
  Keeps, Keeps-refl, Keeps-trans, holds, get-eq-ok, add_dependency-Keeps, add_dependency-holds,
}
use project_os.DependencyPolicy.Choice.{add_unambiguous_dependency-eq-ok}

abbrev pub returned : Table → Result PolicyError Table
returned table = ok table

pub ok-Keeps : {before after : Table} → returned before ≡ ok after → Keeps before after
ok-Keeps {before} {after} h =
    let same : before ≡ after = cc in subst (Keeps before) same (Keeps-refl before)

module _ (item_ids_by_agent : Dict String (List String)) (item_id_by_ref : Dict String String) where
  pub add_planned-Keeps :
      (table : Table) (target ref : String) (refs : List String) {after : Table}
      → add_planned item_ids_by_agent item_id_by_ref table target ref refs ≡ ok after
      → Keeps table after
  unfolding add_planned
  add_planned-Keeps table target ref [] {after} h = ok-Keeps h
  add_planned-Keeps table target ref (name ∷ refs) h =
      let (key, k, h1) = >>=-eq-ok (get item_id_by_ref name) _ h in
      let (next, n, h2) = >>=-eq-ok (add_dependency false table target _) _ h1 in
      Keeps-trans (add_dependency-Keeps false table target _ refl n)
        (add_planned-Keeps next target ref refs h2)

  -- The planner's dependencies of a step are in the row of its item.
  pub add_planned-holds :
      (table : Table) (target ref : String) (refs : List String) {after : Table} {name key : String}
      → add_planned item_ids_by_agent item_id_by_ref table target ref refs ≡ ok after
      → Memᴰ name refs
      → lookup name item_id_by_ref ≡ some key
      → holds (λ d. true) after target key ≡ true
  unfolding add_planned
  add_planned-holds table target ref [] h m l = elim m [ ]
  add_planned-holds table target ref (first ∷ refs) {after} {name} {key} h (Memᴰ.head same) l =
      let (own, k, h1) = >>=-eq-ok (get item_id_by_ref first) _ h in
      let (next, n, h2) = >>=-eq-ok (add_dependency false table target _) _ h1 in
      let found = ap (λ r. lookup r item_id_by_ref) (sym same) ∙ l in
      let again = get-eq-ok item_id_by_ref first k in
      let same_key : own ≡ key = cc in
      let kept = add_planned-Keeps next target ref refs h2 in
      subst (λ k. holds (λ d. true) after target k ≡ true) same_key
        (kept.keeps_all target own (add_dependency-holds false table target _ n))
  add_planned-holds table target ref (first ∷ refs) h (Memᴰ.tail m) l =
      let (own, k, h1) = >>=-eq-ok (get item_id_by_ref first) _ h in
      let (next, n, h2) = >>=-eq-ok (add_dependency false table target _) _ h1 in
      add_planned-holds next target ref refs h2 m l

  pub add_steps-Keeps :
      (table : Table) (steps : List PlannedStep) {after : Table}
      → add_steps item_ids_by_agent item_id_by_ref table steps ≡ ok after
      → Keeps table after
  unfolding add_steps
  add_steps-Keeps table [] h = ok-Keeps h
  add_steps-Keeps table (step ∷ steps) h =
      let (target, t, h1) = >>=-eq-ok (get item_id_by_ref step.ref) _ h in
      let (next, n, h2) =
        >>=-eq-ok
          (add_planned item_ids_by_agent item_id_by_ref table target step.ref step.depends_on) _
          h1 in
      Keeps-trans (add_planned-Keeps table target step.ref step.depends_on n)
        (add_steps-Keeps next steps h2)

  pub add_steps-holds :
      (table : Table) (steps : List PlannedStep) {after : Table} {step : PlannedStep}
      {name target key : String}
      → add_steps item_ids_by_agent item_id_by_ref table steps ≡ ok after
      → Memᴰ step steps
      → Memᴰ name step.depends_on
      → lookup step.ref item_id_by_ref ≡ some target
      → lookup name item_id_by_ref ≡ some key
      → holds (λ d. true) after target key ≡ true
  unfolding add_steps
  add_steps-holds table [] h m n t l = elim m [ ]
  add_steps-holds table (first ∷ steps) {after} {step} {name} {target} {key} h (Memᴰ.head same) n t
        l =
      let (own, o, h1) = >>=-eq-ok (get item_id_by_ref first.ref) _ h in
      let (next, a, h2) =
        >>=-eq-ok
          (add_planned item_ids_by_agent item_id_by_ref table own first.ref first.depends_on) _
          h1 in
      let found = ap (λ (s : PlannedStep). lookup s.ref item_id_by_ref) (sym same) ∙ t in
      let again = get-eq-ok item_id_by_ref first.ref o in
      let same_target : own ≡ target = cc in
      let there =
        add_planned-holds table own first.ref first.depends_on a
          (subst (λ (s : PlannedStep). Memᴰ name s.depends_on) same n) l in
      let kept = add_steps-Keeps next steps h2 in
      subst (λ k. holds (λ d. true) after k key ≡ true) same_target (kept.keeps_all own key there)
  add_steps-holds table (first ∷ steps) h (Memᴰ.tail m) n t l =
      let (own, o, h1) = >>=-eq-ok (get item_id_by_ref first.ref) _ h in
      let (next, a, h2) =
        >>=-eq-ok
          (add_planned item_ids_by_agent item_id_by_ref table own first.ref first.depends_on) _
          h1 in
      add_steps-holds next steps h2 m n t l

  add_predecessor-Keeps :
      (template_id : String) (overrides : List Edge) (step : PlannedStep) (table : Table)
      (predecessor : String) {after : Table}
      → add_predecessor item_ids_by_agent item_id_by_ref template_id overrides step table
          predecessor
        ≡ ok after
      → Keeps table after
  add_predecessor-Keeps template_id overrides step table predecessor h =
      elim (Bool-cases (is_empty (agent_items item_ids_by_agent item_id_by_ref predecessor))) [
        | inl t ↦ ok-Keeps (rw t at h)
        | inr f ↦ elim (Bool-cases (has_edge (predecessor, step.agent_id) overrides)) [
          | inl t ↦ ok-Keeps (rw (f, t) at h)
          | inr g ↦
              let (target, o, h1) = >>=-eq-ok (get item_id_by_ref step.ref) _ (rw (f, g) at h) in
              let (key, c, a) =
                add_unambiguous_dependency-eq-ok table target
                  (agent_items item_ids_by_agent item_id_by_ref predecessor) step.depends_on
                  item_id_by_ref template (template_rule template_id predecessor step.agent_id)
                  (template_context predecessor step.agent_id) false h1 in
              add_dependency-Keeps false table target _ refl a
        ]
      ]

  add_predecessors-Keeps :
      (template_id : String) (overrides : List Edge) (step : PlannedStep) (table : Table)
      (predecessors : List String) {after : Table}
      → add_predecessors item_ids_by_agent item_id_by_ref template_id overrides step table
          predecessors
        ≡ ok after
      → Keeps table after
  unfolding add_predecessors
  add_predecessors-Keeps template_id overrides step table [] h = ok-Keeps h
  add_predecessors-Keeps template_id overrides step table (predecessor ∷ predecessors) h =
      let (next, n, h1) =
        >>=-eq-ok
          (add_predecessor item_ids_by_agent item_id_by_ref template_id overrides step table
            predecessor)
          _ h in
      Keeps-trans (add_predecessor-Keeps template_id overrides step table predecessor n)
        (add_predecessors-Keeps template_id overrides step next predecessors h1)

  add_template_steps-Keeps :
      (hint : TemplateHint) (overrides : List Edge) (table : Table) (steps : List PlannedStep)
      {after : Table}
      → add_template_steps item_ids_by_agent item_id_by_ref hint overrides table steps ≡ ok after
      → Keeps table after
  unfolding add_template_steps
  add_template_steps-Keeps hint overrides table [] h = ok-Keeps h
  add_template_steps-Keeps hint overrides table (step ∷ steps) {after} h =
      let node = find? (λ node. node.agent_id == step.agent_id) hint.nodes in
      let (next, n, h1) =
        >>=-eq-ok (add_at_node item_ids_by_agent item_id_by_ref hint.id overrides step table node) _
          h in
      Keeps-trans (at_node node n) (add_template_steps-Keeps hint overrides next steps h1)
    where
      at_node :
          (node : Option TemplateNodeHint) {next : Table}
          → add_at_node item_ids_by_agent item_id_by_ref hint.id overrides step table node ≡ ok next
          → Keeps table next
      at_node none n = ok-Keeps n
      at_node (some node) n = add_predecessors-Keeps hint.id overrides step table node.depends_on n

  pub add_template-Keeps :
      (draft : PlanDraft) (hint : Option TemplateHint) (table : Table) {after : Table}
      → add_template item_ids_by_agent item_id_by_ref draft hint table ≡ ok after
      → Keeps table after
  unfolding add_template
  add_template-Keeps draft none table h = ok-Keeps h
  add_template-Keeps draft (some hint) table h =
      let overrides = override_edges draft.template_dependency_overrides in
      let (v, h1) =
        >>-eq-ok
          (validate_overrides item_ids_by_agent item_id_by_ref (template_edges hint.nodes)
            overrides)
          _ h in
      add_template_steps-Keeps hint overrides table draft.steps h1
