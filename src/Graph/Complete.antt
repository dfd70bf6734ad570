-- ===== src/Graph/Complete.antt =====
-- A closed acyclic graph is never refused.
use project_os.Base.{
  ℕ, zero, suc, ◌≤◌, refl, ◌≡◌, ◌≢◌, ◌⊎◌, inl, inr, true, false, not, List, [], ◌∷◌, ◌++◌, Memᴰ, Eq,
  elem, keys, arith, is_empty, elem-append, Bool-cases, mem-filter, filter-mem, elem-map,
  elem-map_of_mem, length,
}
use project_os.Graph.{
  Graph, Peeled, cycle, resolved_all, spent, ready, delete_all, peel, Falls, IsClosed,
}
use project_os.Graph.Acyclic.{elem-ready_of_mem, peel_round, peel-ne-spent}
use project_os.Graph.Frontier.{frontier}

is_empty_of_elem {ℓ} :
    {K : Type ℓ} ⦃e : Eq K⦄ (k : K) (ids : List K) → elem k ids ≡ true → is_empty ids ≡ false
is_empty_of_elem k [] h = cc
is_empty_of_elem k (x ∷ xs) h = cc

module _ {ℓ} {K : Type ℓ} ⦃e : Eq K⦄ (graph : Graph K) (closed : IsClosed graph) (rank : K → ℕ)
    (falls : Falls rank graph) where
  -- Every id of the graph is resolved or pending.
  Covers : List K → Graph K → Type ℓ
  Covers resolved pending =
      (k : K)
      → elem k (keys graph) ≡ true
      → (elem k resolved ≡ true) ⊎ (elem k (keys pending) ≡ true)

  Within : Graph K → Type ℓ
  Within pending = (n : K × List K) → Memᴰ n pending → Memᴰ n graph

  Covers-round :
      (resolved batch : List K) (pending : Graph K)
      → Covers resolved pending
      → Covers (resolved ++ batch) (delete_all batch pending)
  unfolding Covers
  Covers-round resolved batch pending c k h = elim (c k h) [
    | inl done ↦ inl (rw (elem-append k resolved batch) (ground arith))
    | inr later ↦ elim (Bool-cases (elem k batch)) [
      | inl now ↦ inl (rw (elem-append k resolved batch) (ground arith))
      | inr not_now ↦
          let (n, m, p) = elem-map (λ (n : K × List K). n.0) k pending later in
          let kept : not (elem n.0 batch) ≡ true = rw (p, not_now) in
          inr (
            rw (← p) (
              elem-map_of_mem (λ (n : K × List K). n.0) (delete_all batch pending)
                (filter-mem (λ n. not (elem n.0 batch)) pending m kept)))
    ]
  ]

  peel-ne-cycle :
      (fuel : ℕ) (resolved : List K) (pending : Graph K) (left : List K)
      → Within pending
      → Covers resolved pending
      → peel fuel resolved pending ≢ cycle left
  unfolding Covers Within
  peel-ne-cycle fuel resolved [] left w c = unfold peel in λ q. cc
  peel-ne-cycle zero resolved (node ∷ rest) left w c = unfold peel in λ q. cc
  peel-ne-cycle (suc fuel) resolved (node ∷ rest) left w c =
      let (n, m, r) = frontier graph closed rank falls resolved node rest w c in
      let some_ready = is_empty_of_elem n.0 _ (elem-ready_of_mem resolved (node ∷ rest) m r) in
      let batch = ready resolved (node ∷ rest) in
      rw (peel_round fuel resolved node rest some_ready) (
        peel-ne-cycle fuel _ _ left
          (λ o om. w o (mem-filter (λ n. not (elem n.0 batch)) (node ∷ rest) om))
          (Covers-round resolved batch (node ∷ rest) c))

  pub peel_complete :
      (fuel : ℕ)
      → length graph ≤ fuel
      → (order : List K) × (peel fuel [] graph ≡ resolved_all order)
  unfolding Covers Within
  peel_complete fuel h =
      exits (peel fuel [] graph) (peel-ne-spent fuel [] graph h)
        (λ left. peel-ne-cycle fuel [] graph left (λ n m. m) (λ k m. inr m))
    where
      exits :
          (p : Peeled K)
          → p ≢ spent
          → ((left : List K) → p ≢ cycle left)
          → (order : List K) × (p ≡ resolved_all order)
      exits (resolved_all order) _ _ = (order, refl)
      exits (cycle left) _ c = absurd (c left refl)
      exits spent s _ = absurd (s refl)
