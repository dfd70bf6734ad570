-- ===== src/DependencyPolicy/Required.antt =====
-- The rules of the system by a table of the agents (`_apply_system_rules`,
-- app/planner/dependency_policy.py).
use project_os.Base.{
  String, ◌≡◌, refl, ap, ◌∙◌, Bool, true, false, not, ◌&&◌, ◌||◌, List, [], ◌∷◌, ◌++◌, ◌==◌,
  string_eq, nat_eq, any, if◌then◌else◌, arith, inl, inr, Bool-cases,
}
use project_os.DependencyPolicy.{PlanningContext}
use project_os.DependencyPolicy.Rules.{SystemRule, rule, system_rules, environment_exists}

-- Which items wait for which by the rules of the system, by a table of the agents: without files of
-- an implementation, tests wait for code and reviews for both; without an environment, code and tests
-- wait for the bootstrap.
abbrev pub requires : PlanningContext → String → String → Bool
requires context successor predecessor =
    (context.implementation_file_count == 0
      && ((successor == "test_agent" && predecessor == "code_agent")
          || (successor == "review_agent"
              && (predecessor == "code_agent" || predecessor == "test_agent"))))
    || (not (environment_exists context)
        && (successor == "code_agent" || successor == "test_agent")
        && predecessor == "bootstrap_agent")

abbrev pub is_for : String → String → SystemRule → Bool
is_for successor predecessor r = successor == r.successor && predecessor == r.predecessor

module _ (p : SystemRule → Bool) where
  any-append : (xs ys : List SystemRule) → any p (xs ++ ys) ≡ (any p xs || any p ys)
  any-append [] ys = refl
  any-append (x ∷ xs) ys = ground (arith, any-append xs ys)

  any-if : (b : Bool) (xs : List SystemRule) → any p (if b then xs else []) ≡ (b && any p xs)
  any-if true xs = refl
  any-if false xs = refl

  any-unless :
      (b : Bool) (xs : List SystemRule) → any p (if b then [] else xs) ≡ (not b && any p xs)
  any-unless true xs = refl
  any-unless false xs = refl

  -- The rules that apply, as a test on the agents and the context.
  any-system_rules :
      (context : PlanningContext) (selected : String → Bool)
      → any p (system_rules context selected) ≡ (
          (context.implementation_file_count == 0
            && ((selected "test_agent" && p (rule "test_agent" "code_agent" "test_requires_code"))
                || (selected "review_agent"
                    && (p (rule "review_agent" "code_agent" "review_requires_code")
                        || p (rule "review_agent" "test_agent" "review_requires_test")))))
          || (not (environment_exists context)
              && ((selected "code_agent"
                    && p (rule "code_agent" "bootstrap_agent" "code_requires_bootstrap"))
                  || (selected "test_agent"
                      && p (rule "test_agent" "bootstrap_agent" "test_requires_bootstrap")))))
  unfolding system_rules
  any-system_rules context selected =
      let tests = rule "test_agent" "code_agent" "test_requires_code" ∷ [] in
      let reviews =
        rule "review_agent" "code_agent" "review_requires_code"
        ∷ rule "review_agent" "test_agent" "review_requires_test"
        ∷ [] in
      let codes = rule "code_agent" "bootstrap_agent" "code_requires_bootstrap" ∷ [] in
      let boots = rule "test_agent" "bootstrap_agent" "test_requires_bootstrap" ∷ [] in
      let first =
        (if selected "test_agent" then tests else [])
        ++ (if selected "review_agent" then reviews else []) in
      let second =
        (if selected "code_agent" then codes else [])
        ++ (if selected "test_agent" then boots else []) in
      let no_files = context.implementation_file_count == 0 in
      let exists = environment_exists context in
      sums no_files exists (selected "test_agent") (selected "review_agent") (selected "code_agent")
        (p (rule "test_agent" "code_agent" "test_requires_code"))
        (p (rule "review_agent" "code_agent" "review_requires_code"))
        (p (rule "review_agent" "test_agent" "review_requires_test"))
        (p (rule "code_agent" "bootstrap_agent" "code_requires_bootstrap"))
        (p (rule "test_agent" "bootstrap_agent" "test_requires_bootstrap"))
        (any-append (if no_files then first else []) (if exists then [] else second))
        (any-if no_files first) (any-unless exists second)
        (any-append (if selected "test_agent" then tests else [])
          (if selected "review_agent" then reviews else []))
        (any-append (if selected "code_agent" then codes else [])
          (if selected "test_agent" then boots else []))
        (any-if (selected "test_agent") tests) (any-if (selected "review_agent") reviews)
        (any-if (selected "code_agent") codes) (any-if (selected "test_agent") boots)
    where
      sums :
          (nf ex t r k pa pb pc pd pe : Bool) {whole left right first second a b c d : Bool}
          → whole ≡ (left || right)
          → left ≡ (nf && first)
          → right ≡ (not ex && second)
          → first ≡ (a || b)
          → second ≡ (c || d)
          → a ≡ (t && (pa || false))
          → b ≡ (r && (pb || (pc || false)))
          → c ≡ (k && (pd || false))
          → d ≡ (t && (pe || false))
          → whole
            ≡ ((nf && ((t && pa) || (r && (pb || pc)))) || (not ex && ((k && pd) || (t && pe))))
      sums nf ex t r k pa pb pc pd pe e1 e2 e3 e4 e5 e6 e7 e8 e9 = ground arith

-- The rules that apply are those of the table.
pub system_rules-requires :
    (context : PlanningContext) (selected : String → Bool) (successor predecessor : String)
    → selected successor ≡ true
    → requires context successor predecessor ≡ true
    → any (is_for successor predecessor) (system_rules context selected) ≡ true
system_rules-requires context selected successor predecessor s h =
    any-system_rules (is_for successor predecessor) context selected
    ∙ applies (context.implementation_file_count == 0) (not (environment_exists context))
        (successor == "test_agent") (successor == "review_agent") (successor == "code_agent")
        (predecessor == "test_agent") (predecessor == "code_agent")
        (predecessor == "bootstrap_agent") (selected "test_agent") (selected "review_agent")
        (selected "code_agent") h (chosen "test_agent") (chosen "review_agent")
        (chosen "code_agent")
  where
    chosen : (name : String) → (not (successor == name) || selected name) ≡ true
    chosen name = elim (Bool-cases (successor == name)) [
      | inl t ↦ let same = ap selected ((string_eq.beq_iff successor name).0 t) in ground arith
      | inr f ↦ ground arith
    ]

    applies :
        (nf ne st sr sc pt pc pb t r k : Bool)
        → ((nf && ((st && pc) || (sr && (pc || pt)))) || (ne && (sc || st) && pb)) ≡ true
        → (not st || t) ≡ true
        → (not sr || r) ≡ true
        → (not sc || k) ≡ true
        → ((nf && ((t && (st && pc)) || (r && ((sr && pc) || (sr && pt)))))
            || (ne && ((k && (sc && pb)) || (t && (st && pb)))))
          ≡ true
    applies nf ne st sr sc pt pc pb t r k h a b c = ground arith
