-- ===== src/Graph/Acyclic.antt =====
-- One round of `_ensure_acyclic`, and that the loop ends by one of the program's two exits.
use project_os.Base.{
  ℕ, zero, suc, ◌≤◌, ◌<◌, ◌≡◌, ◌≢◌, true, false, not, is_empty, List, [], ◌∷◌, ◌++◌, Memᴰ, Eq, elem,
  filter, keys, arith, length, mem-filter, filter_test, filter-mem, length-filter-lt,
  elem-map_of_mem, elem-map, inl, inr, Bool-cases,
}
use project_os.Graph.{Graph, cycle, spent, is_ready, ready, delete_all, peel}

module _ {ℓ} {K : Type ℓ} ⦃e : Eq K⦄ (resolved : List K) (pending : Graph K) where
  -- The ids of a batch are those of the ready nodes.
  pub elem-ready_of_mem :
      {node : K × List K}
      → Memᴰ node pending
      → is_ready resolved node ≡ true
      → elem node.0 (ready resolved pending) ≡ true
  elem-ready_of_mem m h =
      elem-map_of_mem (λ node. node.0) (filter (is_ready resolved) pending)
        (filter-mem (is_ready resolved) pending m h)

  pub elem-ready :
      (id : K)
      → elem id (ready resolved pending) ≡ true
      → (node : K × List K) × Memᴰ node pending × (is_ready resolved node ≡ true) × (node.0 ≡ id)
  elem-ready id h =
      let (node, m, p) =
        elem-map (λ (n : K × List K). n.0) id (filter (is_ready resolved) pending) h in
      (node, mem-filter (is_ready resolved) pending m, filter_test (is_ready resolved) pending m, p)

  ready_first :
      is_empty (ready resolved pending) ≡ false
      → (id : K) × (elem id (ready resolved pending) ≡ true)
  ready_first h = go (ready resolved pending) h
    where
      go : (ids : List K) → is_empty ids ≡ false → (id : K) × (elem id ids ≡ true)
      go [] h = cc
      go (id ∷ ids) h = (id, ground (arith, e.beq_iff id id))

  -- A round with a ready id leaves fewer nodes.
  pub length-delete_all-lt :
      is_empty (ready resolved pending) ≡ false
      → length (delete_all (ready resolved pending) pending) < length pending
  length-delete_all-lt h =
      let (id, first) = ready_first h in
      let (node, m, r, p) = elem-ready id first in
      length-filter-lt (λ n. not (elem n.0 (ready resolved pending))) pending m
        (rw (elem-ready_of_mem m r))

module _ {ℓ} {K : Type ℓ} ⦃e : Eq K⦄ (fuel : ℕ) (resolved : List K) (node : K × List K)
    (rest : Graph K) where
  abbrev batch : List K
  batch = ready resolved (node ∷ rest)

  pub peel_stuck :
      is_empty (ready resolved (node ∷ rest)) ≡ true
      → peel (suc fuel) resolved (node ∷ rest) ≡ cycle (keys (node ∷ rest))
  unfolding peel
  peel_stuck h = rw (h, peel)

  pub peel_round :
      is_empty (ready resolved (node ∷ rest)) ≡ false
      → peel (suc fuel) resolved (node ∷ rest)
        ≡ peel fuel
            (resolved ++ ready resolved (node ∷ rest))
            (delete_all (ready resolved (node ∷ rest)) (node ∷ rest))
  unfolding peel
  peel_round h = rw (h, peel)

module _ {ℓ} {K : Type ℓ} ⦃e : Eq K⦄ where
  -- With fuel for each node the loop never runs out.
  pub peel-ne-spent :
      (fuel : ℕ) (resolved : List K) (pending : Graph K)
      → length pending ≤ fuel
      → peel fuel resolved pending ≢ spent
  peel-ne-spent fuel resolved [] h = unfold peel in λ q. cc
  peel-ne-spent zero resolved (node ∷ rest) h = absurd (omega arith)
  peel-ne-spent (suc fuel) resolved (node ∷ rest) h =
      elim (Bool-cases (is_empty (ready resolved (node ∷ rest)))) [
        | inl stuck ↦ rw (peel_stuck fuel resolved node rest stuck) (λ q. cc)
        | inr more ↦ rw (peel_round fuel resolved node rest more) (
            peel-ne-spent fuel _ _
              (omega (arith, length-delete_all-lt resolved (node ∷ rest) more)))
      ]
