-- ===== src/Graph.antt =====
-- The dependency graph of a plan and `ExecutionPlan._ensure_acyclic` (app/orchestration/plan.py).
-- A node is an id with the ids that it requires; the graph is the dict `dependencies`.
pub mod Acyclic
pub mod Frontier
pub mod Sound
pub mod Complete
use project_os.Base.{
  ℕ, zero, suc, ◌<◌, ◌≡◌, Bool, true, false, not, is_empty, List, [], ◌∷◌, ◌++◌, map, Memᴰ, Eq,
  elem, subset, filter, Dict, keys,
}

abbrev pub Graph {ℓ} : Type ℓ → Type ℓ
Graph K = Dict K (List K)

-- How `while dependencies` ends: by exhaustion, with the ids in the order in which they were
-- resolved, or in a round with no ready id, with the ids that are left. `spent` is out of fuel.
pub data Peeled {ℓ} (K : Type ℓ) : Type ℓ where
  resolved_all : List K → Peeled K
  cycle : List K → Peeled K
  spent : Peeled K

module _ {ℓ} {K : Type ℓ} ⦃e : Eq K⦄ where
  -- required <= resolved
  abbrev pub is_ready : List K → K × List K → Bool
  is_ready resolved node = subset node.1 resolved

  -- the ids that are ready in this round
  abbrev pub ready : List K → Graph K → List K
  ready resolved pending = keys (filter (is_ready resolved) pending)

  -- for item_id in ready: del dependencies[item_id]
  abbrev pub delete_all : List K → Graph K → Graph K
  delete_all ids = filter (λ node. not (elem node.0 ids))

  unfoldable pub peel : ℕ → List K → Graph K → Peeled K
  peel fuel resolved [] = resolved_all resolved
  peel zero resolved (node ∷ rest) = spent
  peel (suc fuel) resolved (node ∷ rest) =
      let pending = node ∷ rest in
      let batch = ready resolved pending in
      elim (is_empty batch) [
        | true ↦ cycle (keys pending)
        | false ↦ peel fuel (resolved ++ batch) (delete_all batch pending)
      ]

-- A rank on ids that falls along every dependency.
abbrev pub Falls {ℓ} : {K : Type ℓ} ⦃e : Eq K⦄ → (K → ℕ) → Graph K → Type ℓ
Falls {K} rank graph =
    (node : K × List K) → Memᴰ node graph → (d : K) → elem d node.1 ≡ true → rank d < rank node.0

abbrev pub IsAcyclic {ℓ} : {K : Type ℓ} ⦃e : Eq K⦄ → Graph K → Type ℓ
IsAcyclic {K} graph = (rank : K → ℕ) × Falls rank graph

-- Every required id is the id of a node.
abbrev pub IsClosed {ℓ} : {K : Type ℓ} ⦃e : Eq K⦄ → Graph K → Type ℓ
IsClosed {K} graph = (node : K × List K) → Memᴰ node graph → subset node.1 (keys graph) ≡ true
