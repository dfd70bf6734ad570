-- ===== src/Graph/Sound.antt =====
-- A graph that the loop exhausts has no cycle: the round of each id is its rank.
use project_os.Base.{
  ℕ, zero, suc, refl, ◌≡◌, inl, inr, sym, ◌∙◌, true, false, not, List, [], ◌∷◌, ◌++◌, Memᴰ, Eq,
  elem, keys, arith, is_empty, elem-append, Bool-cases, mem-filter, filter-mem, filter_test,
  subset-elem, distinct, distinct-map_injective, if◌then◌else◌,
}
use project_os.Graph.{Graph, resolved_all, is_ready, ready, delete_all, peel, Falls, IsAcyclic}
use project_os.Graph.Acyclic.{elem-ready, peel_round, peel_stuck}

module _ {ℓ} {K : Type ℓ} ⦃e : Eq K⦄ where
  -- One owner for each id, and no pending id is resolved.
  abbrev OneOwner : Graph K → Type ℓ
  OneOwner pending = (n m : K × List K) → Memᴰ n pending → Memᴰ m pending → n.0 ≡ m.0 → n ≡ m

  abbrev Apart : List K → Graph K → Type ℓ
  Apart resolved pending = (n : K × List K) → Memᴰ n pending → elem n.0 resolved ≡ false

  -- A rank that is `base` on what is resolved and falls along what is pending.
  abbrev Ranks : ℕ → List K → Graph K → Type ℓ
  Ranks base resolved pending =
      (rank : K → ℕ) × ((k : K) → elem k resolved ≡ true → rank k ≡ base) × Falls rank pending

  extend_rank : ℕ → List K → (K → ℕ) → K → ℕ
  extend_rank base resolved rank k = if elem k resolved then base else rank k

  extend_rank_resolved :
      (base : ℕ) (resolved : List K) (rank : K → ℕ) (k : K)
      → elem k resolved ≡ true
      → extend_rank base resolved rank k ≡ base
  unfolding extend_rank
  extend_rank_resolved base resolved rank k m = rw m

  module _ (base : ℕ) (resolved : List K) (pending : Graph K) (one : OneOwner pending)
      (apart : Apart resolved pending) where
    abbrev batch : List K
    batch = ready resolved pending

    extend-Falls :
        (rank : K → ℕ)
        → ((k : K) → elem k (resolved ++ batch) ≡ true → rank k ≡ suc base)
        → Falls rank (delete_all batch pending)
        → Falls (extend_rank base resolved rank) pending
    unfolding extend_rank
    extend-Falls rank at_base falls n m d h = elim (Bool-cases (elem n.0 batch)) [
      | inl now ↦
          let (o, om, r, p) = elem-ready resolved pending n.0 now in
          let same = one o n om m p in
          let ready_n : is_ready resolved n ≡ true = rw same at r in
          let done = subset-elem d n.1 resolved ready_n h in
          let new = at_base n.0 (rw (elem-append n.0 resolved batch) (ground arith)) in
          ground (arith, apart n m)
      | inr later ↦
          let kept : not (elem n.0 batch) ≡ true = rw later in
          let below = falls n (filter-mem (λ n. not (elem n.0 batch)) pending m kept) d h in
          ground (arith, apart n m, at_base d, elem-append d resolved batch)
    ]

  peel-Ranks :
      (fuel base : ℕ) (resolved order : List K) (pending : Graph K)
      → OneOwner pending
      → Apart resolved pending
      → peel fuel resolved pending ≡ resolved_all order
      → Ranks base resolved pending
  peel-Ranks fuel base resolved order [] one apart h = (λ k. base, λ k m. refl, λ n m. elim m [ ])
  peel-Ranks zero base resolved order (node ∷ rest) one apart h = unfold peel in cc
  peel-Ranks (suc fuel) base resolved order (node ∷ rest) one apart h =
      elim (Bool-cases (is_empty (ready resolved (node ∷ rest)))) [
        | inl stuck ↦ cc (peel_stuck fuel resolved node rest stuck)
        | inr more ↦
            let pending = node ∷ rest in
            let ids = ready resolved pending in
            let keep = λ (n : K × List K). not (elem n.0 ids) in
            let (rank, at_base, falls) =
              peel-Ranks fuel (suc base) (resolved ++ ids) order (delete_all ids pending)
                (λ n m nm mm p. one n m (mem-filter keep pending nm) (mem-filter keep pending mm) p)
                (λ n m.
                  rw (elem-append n.0 resolved ids) (
                    ground
                      (arith, apart n (mem-filter keep pending m), filter_test keep pending m)))
                (sym (peel_round fuel resolved node rest more) ∙ h) in
            (
              extend_rank base resolved rank,
              extend_rank_resolved base resolved rank,
              extend-Falls base resolved pending one apart rank at_base falls,
            )
      ]

  pub peel_sound :
      (fuel : ℕ) (graph : Graph K) (order : List K)
      → distinct (keys graph) ≡ true
      → peel fuel [] graph ≡ resolved_all order
      → IsAcyclic graph
  peel_sound fuel graph order one h =
      let (rank, _, falls) =
        peel-Ranks fuel 0 [] order graph
          (λ n m nm mm p. distinct-map_injective (λ (n : K × List K). n.0) graph one nm mm p)
          (λ n m. refl) h in
      (rank, falls)
