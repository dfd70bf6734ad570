-- ===== src/DependencyPolicy/Resolved.antt =====
-- What `DependencyPolicy.resolve` returns (app/planner/dependency_policy.py): the dependencies that the
-- planner asks for, and those that the system's rules demand.
use project_os.Base.{
  String, ◌≡◌, refl, ap, sym, ◌∙◌, subst, Bool, true, some, List, [], Memᴰ, string_eq, nat_eq, elem,
  any-mem, lookup-has_key, ok, >>=-eq-ok, Dict, lookup, has_key, arith,
}
use project_os.WorkItem.{WorkItemDependency}
use project_os.DependencyPolicy.{PlannedStep, PlanDraft, PlanningContext, Table}
use project_os.DependencyPolicy.Rules.{system_rules, apply_rules, apply_system_rules}
use project_os.DependencyPolicy.Resolve.{
  resolve, resolve_rows, as_tuples, empty_rows, add_steps, add_template, template_for,
}
use project_os.DependencyPolicy.Growth.{Keeps, Keeps-trans, is_system, is_keyed}
use project_os.DependencyPolicy.Kept.{add_steps-Keeps, add_steps-holds, add_template-Keeps}
use project_os.DependencyPolicy.Demanded.{apply_rules-Keeps, apply_rules-holds}
use project_os.DependencyPolicy.Waiting.{waits_for, waits_for-holds, empty_rows-keyed}
use project_os.DependencyPolicy.Required.{requires, is_for, system_rules-requires}

module _ (item_ids_by_agent : Dict String (List String)) (item_id_by_ref : Dict String String) where
  abbrev selected : String → Bool
  selected agent = has_key agent item_ids_by_agent

  resolve-eq-ok :
      (draft : PlanDraft) (context : PlanningContext)
      {resolved : Dict String (List WorkItemDependency)}
      → resolve item_ids_by_agent item_id_by_ref draft context ≡ ok resolved
      → (planned experienced rows : Table) × (add_steps item_ids_by_agent item_id_by_ref
            (empty_rows [] item_ids_by_agent)
            draft.steps
          ≡ ok planned)
        × (apply_rules item_ids_by_agent item_id_by_ref experienced (system_rules context selected)
            ≡ ok rows)
        × Keeps planned rows
        × (is_keyed rows ≡ true)
        × (as_tuples rows ≡ resolved)
  unfolding resolve resolve_rows apply_system_rules
  resolve-eq-ok draft context {resolved} h =
      let (rows, r, h1) =
        >>=-eq-ok (resolve_rows item_ids_by_agent item_id_by_ref draft context) _ h in
      let (planned, p, h2) =
        >>=-eq-ok
          (add_steps item_ids_by_agent item_id_by_ref (empty_rows [] item_ids_by_agent) draft.steps)
          _ r in
      let (hint, t, h3) = >>=-eq-ok (template_for draft context) _ h2 in
      let (experienced, e, h4) =
        >>=-eq-ok (add_template item_ids_by_agent item_id_by_ref draft hint planned) _ h3 in
      let first =
        add_steps-Keeps item_ids_by_agent item_id_by_ref (empty_rows [] item_ids_by_agent)
          draft.steps p in
      let later =
        Keeps-trans (add_template-Keeps item_ids_by_agent item_id_by_ref draft hint planned e) (
          apply_rules-Keeps item_ids_by_agent item_id_by_ref experienced
            (system_rules context selected) h4) in
      let keyed =
        (Keeps-trans first later).keeps_keyed (empty_rows-keyed [] item_ids_by_agent refl) in
      (planned, experienced, rows, p, h4, later, keyed, cc)

  -- Where the rules require a predecessor for a successor that is selected, the predecessor is
  -- selected too, and every item of the successor waits, for a reason of the system, for an item of
  -- it, whatever the draft and the template say.
  pub resolve-requires :
      (draft : PlanDraft) (context : PlanningContext)
      {resolved : Dict String (List WorkItemDependency)} (successor predecessor : String)
      {items : List String} {item : String}
      → resolve item_ids_by_agent item_id_by_ref draft context ≡ ok resolved
      → requires context successor predecessor ≡ true
      → lookup successor item_ids_by_agent ≡ some items
      → Memᴰ item items
      → (candidates : List String) × (lookup predecessor item_ids_by_agent ≡ some candidates)
        × (key : String) × (elem key candidates ≡ true)
        × (waits_for is_system resolved item key ≡ true)
  resolve-requires draft context {resolved} successor predecessor {items} {item} h q s m =
      let (planned, experienced, rows, a, b, e, keyed, same) = resolve-eq-ok draft context h in
      let (r, n, for) = any-mem (is_for successor predecessor) (system_rules context selected) (
        system_rules-requires context selected successor predecessor
          (lookup-has_key successor item_ids_by_agent s) q) in
      let own_s = (string_eq.beq_iff successor r.successor).0 (ground arith) in
      let own_p = (string_eq.beq_iff predecessor r.predecessor).0 (ground arith) in
      let (candidates, p, key, c, there) =
        apply_rules-holds item_ids_by_agent item_id_by_ref experienced
          (system_rules context selected) b n (ap (λ k. lookup k item_ids_by_agent) (sym own_s) ∙ s)
          m in
      (
        candidates,
        ap (λ k. lookup k item_ids_by_agent) own_p ∙ p,
        key,
        c,
        subst (λ d. waits_for is_system d item key ≡ true) same
            (waits_for-holds is_system rows item key keyed there),
      )

  -- Every item waits for the items that its step of the draft names, whatever the template and the
  -- system add.
  pub resolve-planned :
      (draft : PlanDraft) (context : PlanningContext)
      {resolved : Dict String (List WorkItemDependency)} {step : PlannedStep}
      {name item key : String}
      → resolve item_ids_by_agent item_id_by_ref draft context ≡ ok resolved
      → Memᴰ step draft.steps
      → Memᴰ name step.depends_on
      → lookup step.ref item_id_by_ref ≡ some item
      → lookup name item_id_by_ref ≡ some key
      → waits_for (λ dependency. true) resolved item key ≡ true
  resolve-planned draft context {resolved} {step} {name} {item} {key} h m n t l =
      let (planned, experienced, rows, a, b, e, keyed, same) = resolve-eq-ok draft context h in
      let there =
        add_steps-holds item_ids_by_agent item_id_by_ref (empty_rows [] item_ids_by_agent)
          draft.steps a m n t l in
      subst (λ d. waits_for (λ dependency. true) d item key ≡ true) same
        (waits_for-holds (λ dependency. true) rows item key keyed (e.keeps_all item key there))
