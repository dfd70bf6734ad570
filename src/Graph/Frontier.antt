-- ===== src/Graph/Frontier.antt =====
-- In a closed acyclic graph, what is not yet resolved has a node whose requirements are.
use project_os.Base.{
  ℕ, ◌≤◌, ◌≡◌, ◌⊎◌, inl, inr, ap, true, false, is_empty, List, [], ◌∷◌, Memᴰ, Eq, elem, keys, arith,
  least, subset-elem, subset_intro, elem-map,
}
use project_os.Graph.{Graph, is_ready, Falls, IsClosed}

module _ {ℓ} {K : Type ℓ} ⦃e : Eq K⦄ (graph : Graph K) (closed : IsClosed graph) (rank : K → ℕ)
    (falls : Falls rank graph) (resolved : List K) where
  -- A node of least rank among the pending ones waits for nothing.
  pub frontier :
      (node : K × List K) (rest : Graph K)
      → ((n : K × List K) → Memᴰ n (node ∷ rest) → Memᴰ n graph)
      → ((k : K)
          → elem k (keys graph) ≡ true
          → (elem k resolved ≡ true) ⊎ (elem k (keys (node ∷ rest)) ≡ true))
      → (n : K × List K) × Memᴰ n (node ∷ rest) × (is_ready resolved n ≡ true)
  frontier node rest within covers =
      let (n, m, lowest) = least (λ (n : K × List K). rank n.0) node rest in
      (n, m, subset_intro n.1 resolved (waits_not n m lowest))
    where
      waits_not :
          (n : K × List K)
          → Memᴰ n (node ∷ rest)
          → ((o : K × List K) → Memᴰ o (node ∷ rest) → rank n.0 ≤ rank o.0)
          → (d : K) → elem d n.1 ≡ true
          → elem d resolved ≡ true
      waits_not n m lowest d h =
          elim (covers d (subset-elem d n.1 (keys graph) (closed n (within n m)) h)) [
            | inl done ↦ done
            | inr pending ↦
                let (o, om, p) = elem-map (λ (o : K × List K). o.0) d (node ∷ rest) pending in
                let below = falls n (within n m) d h in
                let least_o = lowest o om in absurd (omega (arith, ap rank p))
          ]

  -- The same of any list of pending nodes that is not empty.
  pub some_frontier :
      (pending : Graph K)
      → is_empty pending ≡ false
      → ((n : K × List K) → Memᴰ n pending → Memᴰ n graph)
      → ((k : K)
          → elem k (keys graph) ≡ true
          → (elem k resolved ≡ true) ⊎ (elem k (keys pending) ≡ true))
      → (n : K × List K) × Memᴰ n pending × (is_ready resolved n ≡ true)
  some_frontier [] h within covers = cc
  some_frontier (node ∷ rest) h within covers = frontier node rest within covers
