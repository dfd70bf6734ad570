-- ===== src/Tools/Visible.antt =====
-- Which tools an agent gets (app/tool_manager/gateway.py, app/tool_manager/access_policy.py).
use project_os.Base.{
  ℕ, String, ◌≡◌, refl, ap, sym, ◌∙◌, Bool, true, false, not, ◌&&◌, Option, some, List, [], ◌∷◌,
  map, Memᴰ, ◌==◌, string_eq, option_eq, elem, elem-sorted, elem-unique, elem-map, elem-map_of_mem,
  elem-mem, mem-elem, filter, filter_test, mem-filter, all, all-mem, all_intro, any, any-mem,
  is_empty, sorted, unique, arith, mem_map,
}
use project_os.Tools.{
  CapabilityGrant, ToolExposure, always, on_demand, ToolRegistration, ToolContext, ToolAccessPolicy,
  is_active, is_in_scope, grant_matches, is_visible, deactivate_grant,
}
use project_os.Tools.Gateway.{passed, names, is_injected, tools_for, preflight}

first_of : (a b c : Bool) → (a && b && c) ≡ true → a ≡ true
first_of a b c h = ground arith

unnegated : (a : Bool) → not a ≡ true → a ≡ false
unnegated a h = ground arith

four : (a b c d : Bool) → (a && b && c && d) ≡ true → (a ≡ true) × ((b && c) ≡ true) × (d ≡ true)
four a b c d h = (ground arith, ground arith, ground arith)

-- Nothing is missing exactly where everything is there.
is_empty-missing_from :
    (keep : String → Bool) (required : List String)
    → is_empty (filter (λ tool. not (keep tool)) required) ≡ all keep required
is_empty-missing_from keep [] = refl
is_empty-missing_from keep (tool ∷ required) = ground (arith, is_empty-missing_from keep required)

all-unique : (keep : String → Bool) (tools : List String) → all keep (unique tools) ≡ all keep tools
all-unique keep tools =
    same (all keep (unique tools)) (all keep tools)
      (λ h. all_intro keep tools (λ tool m.
        all-mem keep (unique tools) h
          (elem-mem tool (unique tools) (elem-unique tool tools ∙ mem-elem tools m))))
      (λ h. all_intro keep (unique tools) (λ tool m.
        all-mem keep tools h
          (elem-mem tool tools (sym (elem-unique tool tools) ∙ mem-elem (unique tools) m))))
  where
    same : (a b : Bool) → (a ≡ true → b ≡ true) → (b ≡ true → a ≡ true) → a ≡ b
    same a b f g = ground (arith, f, g)

all_mono :
    (p q : String → Bool) (tools : List String)
    → ((tool : String) → p tool ≡ true → q tool ≡ true)
    → all p tools ≡ true
    → all q tools ≡ true
all_mono p q [] f h = refl
all_mono p q (tool ∷ tools) f h = ground (arith, f tool, all_mono p q tools f)

module _ (parse_time : String → Option ℕ) (now : ℕ) where
  -- The names of the tools that are injected are registered.
  injected_registered :
      (policy : ToolAccessPolicy parse_time now) (registrations : List ToolRegistration)
      (context : Option ToolContext) (tool : String)
      → elem tool (names (tools_for parse_time now policy registrations context)) ≡ true
      → elem tool (names registrations) ≡ true
  unfolding tools_for
  injected_registered policy registrations context tool h =
      let (registration, m, same) =
        elem-map (λ (r : ToolRegistration). r.name) tool
          (tools_for parse_time now policy registrations context) h in
      ap (λ k. elem k (names registrations)) (sym same)
      ∙ elem-map_of_mem (λ (r : ToolRegistration). r.name) registrations
          (mem-filter (is_injected parse_time now policy registrations context) registrations m)

  -- The preflight of a work item passes exactly where each tool that it requires is among those that
  -- its agent will get.
  pub preflight_lem :
      (policy : ToolAccessPolicy parse_time now) (registrations : List ToolRegistration)
      (domain : String) (required : List String) (context : Option ToolContext)
      → passed (preflight parse_time now policy registrations domain required context)
        ≡ all
            (λ tool. elem tool (names (tools_for parse_time now policy registrations context)))
            required
  unfolding preflight
  preflight_lem policy registrations domain required context =
      let got = names (tools_for parse_time now policy registrations context) in
      let known = names registrations in
      let is_known = λ (tool : String). elem tool (sorted (unique known)) in
      let is_got = λ (tool : String). elem tool (sorted got) in
      let a = is_empty-missing_from is_known (unique required) ∙ all-unique is_known required in
      let b = is_empty-missing_from is_got (unique required) ∙ all-unique is_got required in
      let c = all_mono is_got is_known required (λ tool h.
        elem-sorted tool (unique known)
        ∙ elem-unique tool known
        ∙ injected_registered policy registrations context tool (sym (elem-sorted tool got) ∙ h)) in
      let d =
        all_mono is_got (λ tool. elem tool got) required
          (λ tool h. sym (elem-sorted tool got) ∙ h) in
      let e =
        all_mono (λ tool. elem tool got) is_got required (λ tool h. elem-sorted tool got ∙ h) in
      weaker a b c d e
    where
      weaker :
          {passed_known passed_got k g r : Bool}
          → passed_known ≡ k
          → passed_got ≡ g
          → (g ≡ true → k ≡ true)
          → (g ≡ true → r ≡ true)
          → (r ≡ true → g ≡ true)
          → (passed_known && passed_got) ≡ r
      weaker a b c d e = ground (arith, c, d, e)

  -- Every entry of the policy stands under its id.
  abbrev pub is_keyed : ToolAccessPolicy parse_time now → Bool
  is_keyed policy = all (λ entry. entry.0 == entry.1.grant_id) policy

  -- After a grant is deactivated, a tool that is shown on demand has another grant: one of another id
  -- that is active and for its capability and source, and in whose scope the context is.
  pub tools_for-deactivate_grant :
      (policy : ToolAccessPolicy parse_time now) (registrations : List ToolRegistration)
      (grant_id : String) (context : ToolContext) {tool : ToolRegistration}
      → is_keyed policy ≡ true
      → Memᴰ tool (
          tools_for parse_time now
            (deactivate_grant parse_time now grant_id policy)
            registrations
            (some context))
      → tool.exposure ≡ on_demand
      → (grant : CapabilityGrant) × Memᴰ grant (map (λ entry. entry.1) policy)
        × (is_active parse_time now grant ≡ true)
        × ((grant.grant_id == grant_id) ≡ false)
        × ((tool.capability == grant.capability && tool.source_name == grant.source_name) ≡ true)
        × (is_in_scope parse_time now grant context ≡ true)
  unfolding tools_for is_visible deactivate_grant grant_matches
  tools_for-deactivate_grant policy registrations grant_id context {tool} k m o =
      let left = deactivate_grant parse_time now grant_id policy in
      let shown =
        filter_test (is_injected parse_time now left registrations (some context)) registrations
          m in
      let matched =
        on_demand_only tool.exposure o
          (any (λ entry. grant_matches parse_time now tool (some context) entry.1) left)
          (first_of _ _ _ shown) in
      let (entry, n, t) =
        any-mem (λ entry. grant_matches parse_time now tool (some context) entry.1) left matched in
      let own = mem-filter (λ e. not (grant_id == e.0)) policy n in
      let other = filter_test (λ e. not (grant_id == e.0)) policy n in
      let keyed = all-mem (λ e. e.0 == e.1.grant_id) policy k own in
      let same = (string_eq.beq_iff entry.0 entry.1.grant_id).0 keyed in
      let (active, about, reached) = four _ _ _ _ t in
      (
        entry.1,
        mem_map (λ (e : String × CapabilityGrant). e.1) policy own,
        active,
        turned entry.1.grant_id grant_id
            (ap (λ (key : String). grant_id == key) (sym same) ∙ unnegated _ other),
        about,
        reached,
      )
    where
      turned : (a b : String) → (b == a) ≡ false → (a == b) ≡ false
      turned a b h = ground (arith, string_eq.beq_iff a b, string_eq.beq_iff b a)

      on_demand_only :
          (exposure : ToolExposure)
          → exposure ≡ on_demand
          → (found : Bool)
          → (elim exposure [ always ↦ true | on_demand ↦ found | _ ↦ false ]) ≡ true
          → found ≡ true
      on_demand_only on_demand e found h = h
      on_demand_only _ e found h = cc
