-- ===== src/DependencyPolicy/Demanded.antt =====
-- The rules of the system keep the dependencies that there are, and every item of a successor has one
-- of the system after them (app/planner/dependency_policy.py).
use project_os.Base.{
  String, ◌≡◌, refl, true, not, some, List, [], ◌∷◌, Memᴰ, string_eq, elem, ok, >>-eq-ok, >>=-eq-ok,
  refuse_if, Dict, lookup, has_key, ap, subst, sym, ◌∙◌,
}
use project_os.WorkItem.{system}
use project_os.DependencyPolicy.{Table, get, add_unambiguous_dependency, no_predecessor}
use project_os.DependencyPolicy.Rules.{
  SystemRule, add_system_dependencies, apply_rule, apply_rules, system_context,
}
use project_os.DependencyPolicy.Growth.{
  Keeps, Keeps-trans, holds, is_system, get-eq-ok, add_dependency-Keeps, add_dependency-system,
}
use project_os.DependencyPolicy.Choice.{add_unambiguous_dependency-eq-ok}
use project_os.DependencyPolicy.Kept.{ok-Keeps}

module _ (item_ids_by_agent : Dict String (List String)) (item_id_by_ref : Dict String String) where
  -- The rules of the system keep what there is,
  add_system_dependencies-Keeps :
      (table : Table) (successors predecessor_ids : List String) (rule_id : String) {after : Table}
      → add_system_dependencies item_ids_by_agent item_id_by_ref table successors predecessor_ids
          rule_id
        ≡ ok after
      → Keeps table after
  unfolding add_system_dependencies
  add_system_dependencies-Keeps table [] predecessor_ids rule_id h = ok-Keeps h
  add_system_dependencies-Keeps table (successor ∷ successors) predecessor_ids rule_id h =
      let (next, n, h1) =
        >>=-eq-ok
          (add_unambiguous_dependency table successor predecessor_ids [] item_id_by_ref system
            rule_id (system_context rule_id) true)
          _ h in
      let (key, c, a) =
        add_unambiguous_dependency-eq-ok table successor predecessor_ids [] item_id_by_ref system
          rule_id (system_context rule_id) true n in
      Keeps-trans (add_dependency-Keeps true table successor _ refl a)
        (add_system_dependencies-Keeps next successors predecessor_ids rule_id h1)

  -- and give each successor a dependency of the system on a candidate.
  add_system_dependencies-holds :
      (table : Table) (successors predecessor_ids : List String) (rule_id : String) {after : Table}
      {item : String}
      → add_system_dependencies item_ids_by_agent item_id_by_ref table successors predecessor_ids
          rule_id
        ≡ ok after
      → Memᴰ item successors
      → (key : String) × (elem key predecessor_ids ≡ true) × (holds is_system after item key ≡ true)
  unfolding add_system_dependencies
  add_system_dependencies-holds table [] predecessor_ids rule_id h m = elim m [ ]
  add_system_dependencies-holds table (successor ∷ successors) predecessor_ids rule_id {after}
        {item} h (Memᴰ.head same) =
      let (next, n, h1) =
        >>=-eq-ok
          (add_unambiguous_dependency table successor predecessor_ids [] item_id_by_ref system
            rule_id (system_context rule_id) true)
          _ h in
      let (key, c, a) =
        add_unambiguous_dependency-eq-ok table successor predecessor_ids [] item_id_by_ref system
          rule_id (system_context rule_id) true n in
      let kept = add_system_dependencies-Keeps next successors predecessor_ids rule_id h1 in
      let there =
        kept.keeps_system successor key (add_dependency-system table successor _ refl a) in
      (key, c, subst (λ k. holds is_system after k key ≡ true) (sym same) there)
  add_system_dependencies-holds table (successor ∷ successors) predecessor_ids rule_id h
        (Memᴰ.tail m) =
      let (next, n, h1) =
        >>=-eq-ok
          (add_unambiguous_dependency table successor predecessor_ids [] item_id_by_ref system
            rule_id (system_context rule_id) true)
          _ h in
      add_system_dependencies-holds next successors predecessor_ids rule_id h1 m

  apply_rule-eq-ok :
      (table : Table) (r : SystemRule) {after : Table}
      → apply_rule item_ids_by_agent item_id_by_ref table r ≡ ok after
      → (successors : List String) × (predecessor_ids : List String) × (lookup r.successor
            item_ids_by_agent
          ≡ some successors)
        × (lookup r.predecessor item_ids_by_agent ≡ some predecessor_ids)
        × (add_system_dependencies item_ids_by_agent item_id_by_ref table successors predecessor_ids
              r.rule_id
            ≡ ok after)
  apply_rule-eq-ok table r h =
      let (c, h1) =
        >>-eq-ok
          (refuse_if (not (has_key r.predecessor item_ids_by_agent))
            (no_predecessor r.successor r.predecessor))
          _ h in
      let (successors, s, h2) = >>=-eq-ok (get item_ids_by_agent r.successor) _ h1 in
      let (predecessor_ids, p, h3) = >>=-eq-ok (get item_ids_by_agent r.predecessor) _ h2 in
      (
        successors,
        predecessor_ids,
        get-eq-ok item_ids_by_agent r.successor s,
        get-eq-ok item_ids_by_agent r.predecessor p,
        h3,
      )

  pub apply_rules-Keeps :
      (table : Table) (rules : List SystemRule) {after : Table}
      → apply_rules item_ids_by_agent item_id_by_ref table rules ≡ ok after
      → Keeps table after
  unfolding apply_rules
  apply_rules-Keeps table [] h = ok-Keeps h
  apply_rules-Keeps table (r ∷ rules) h =
      let (next, n, h1) = >>=-eq-ok (apply_rule item_ids_by_agent item_id_by_ref table r) _ h in
      let (successors, predecessor_ids, s, p, a) = apply_rule-eq-ok table r n in
      Keeps-trans (add_system_dependencies-Keeps table successors predecessor_ids r.rule_id a)
        (apply_rules-Keeps next rules h1)

  -- After the rules the predecessor of each has items, and every item of its successor has a
  -- dependency of the system on one of them.
  pub apply_rules-holds :
      (table : Table) (rules : List SystemRule) {after : Table} {r : SystemRule}
      {items : List String} {item : String}
      → apply_rules item_ids_by_agent item_id_by_ref table rules ≡ ok after
      → Memᴰ r rules
      → lookup r.successor item_ids_by_agent ≡ some items
      → Memᴰ item items
      → (candidates : List String) × (lookup r.predecessor item_ids_by_agent ≡ some candidates)
        × (key : String) × (elem key candidates ≡ true)
        × (holds is_system after item key ≡ true)
  unfolding apply_rules
  apply_rules-holds table [] h m s i = elim m [ ]
  apply_rules-holds table (first ∷ rules) {after} {r} {items} {item} h (Memᴰ.head same) s i =
      let (next, n, h1) = >>=-eq-ok (apply_rule item_ids_by_agent item_id_by_ref table first) _ h in
      let (successors, predecessor_ids, s', p', a) = apply_rule-eq-ok table first n in
      let first_s = ap (λ (x : SystemRule). lookup x.successor item_ids_by_agent) (sym same) ∙ s in
      let own_p = ap (λ (x : SystemRule). lookup x.predecessor item_ids_by_agent) same ∙ p' in
      let same_items : items ≡ successors = cc in
      let (key, c, there) =
        add_system_dependencies-holds table successors predecessor_ids first.rule_id a
          (subst (λ l. Memᴰ item l) same_items i) in
      let kept = apply_rules-Keeps next rules h1 in
      (predecessor_ids, own_p, key, c, kept.keeps_system item key there)
  apply_rules-holds table (first ∷ rules) h (Memᴰ.tail m) s i =
      let (next, n, h1) = >>=-eq-ok (apply_rule item_ids_by_agent item_id_by_ref table first) _ h in
      apply_rules-holds next rules h1 m s i
