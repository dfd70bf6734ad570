-- ===== src/Patch/Downstream.antt =====
-- The loop of `apply_patch` (app/planner/patch.py) that spreads a change: a node depends on a changed
-- node, so it is changed too. On any type of ids.
use project_os.Base.{
  ℕ, zero, suc, ◌≤◌, ◌<◌, ◌≡◌, refl, ap, sym, ◌∙◌, ◌↔◌, Bool, true, false, not, ◌&&◌, Option, none,
  some, List, [], ◌∷◌, ◌++◌, Memᴰ, Eq, elem, any, filter, length, is_empty, keys, arith, inl, inr,
  Bool-cases, elem-append, elem-mem, mem-elem, elem-map_of_mem, elem-map, filter_test, mem-filter,
  filter-mem, any-mem, any_intro, is_empty_of_mem, subst, mem_map, length-filter-le,
}
use project_os.Graph.{Graph}

module _ {ℓ} {K : Type ℓ} ⦃e : Eq K⦄ where
  -- item.id not in changed and any(dependency in changed for dependency in item.dependency_ids)
  abbrev pub is_reached : List K → K × List K → Bool
  is_reached changed node =
      not (elem node.0 changed) && any (λ dependency. elem dependency changed) node.1

  abbrev pub descendants : List K → Graph K → List K
  descendants changed graph = keys (filter (is_reached changed) graph)

  -- while True
  unfoldable pub spread : ℕ → Graph K → List K → Option (List K)
  spread zero graph changed = none
  spread (suc fuel) graph changed = elim (is_empty (descendants changed graph)) [
    | true ↦ some changed
    | false ↦ spread fuel graph (changed ++ descendants changed graph)
  ]

-- A node is downstream of a set of ids if it is one of them, or it depends on a node that is.
pub data Downstream {ℓ} {K : Type ℓ} ⦃e : Eq K⦄ (graph : Graph K) (changed : List K)
    : K → Type ℓ where
  changed_itself : {key : K} → elem key changed ≡ true → Downstream graph changed key
  depends :
      (node : K × List K) (dependency : K)
      → Memᴰ node graph
      → elem dependency node.1 ≡ true
      → Downstream graph changed dependency
      → Downstream graph changed node.0

module _ {ℓ} {K : Type ℓ} ⦃e : Eq K⦄ (graph : Graph K) where
  -- What a round adds is downstream,
  round_sound :
      (changed : List K) (key : K)
      → elem key (descendants changed graph) ≡ true
      → (node : K × List K) × (d : K) × Memᴰ node graph
        × (elem d node.1 ≡ true)
        × (elem d changed ≡ true)
        × (node.0 ≡ key)
  round_sound changed key h =
      let (node, m, same) =
        elem-map (λ (n : K × List K). n.0) key (filter (is_reached changed) graph) h in
      let kept = filter_test (is_reached changed) graph m in
      let (d, n, c) = any-mem (λ dependency. elem dependency changed) node.1 (ground arith) in
      (node, d, mem-filter (is_reached changed) graph m, mem-elem node.1 n, c, same)

  -- and so is the result.
  pub spread_sound :
      (first : List K) (fuel : ℕ) (changed : List K) {result : List K}
      → ((key : K) → elem key changed ≡ true → Downstream graph first key)
      → spread fuel graph changed ≡ some result
      → (key : K) → elem key result ≡ true
      → Downstream graph first key
  unfolding spread
  spread_sound first zero changed sound h key m = cc
  spread_sound first (suc fuel) changed {result} sound h key m =
      elim (Bool-cases (is_empty (descendants changed graph))) [
        | inl t ↦ let same : some changed ≡ some result = rw (t, spread) at h in sound key (cc)
        | inr f ↦
            spread_sound first fuel (changed ++ descendants changed graph) grown
              (rw (f, spread) at h) key m
      ]
    where
      grown :
          (key : K)
          → elem key (changed ++ descendants changed graph) ≡ true
          → Downstream graph first key
      grown key m = elim (Bool-cases (elem key changed)) [
        | inl t ↦ sound key t
        | inr f ↦
            let later = elem-append key changed (descendants changed graph) in
            let (node, d, n, edge, c, same) = round_sound changed key (ground arith) in
            subst (Downstream graph first) same (depends node d n edge (sound d c))
      ]

  -- The loop stops where nothing is left to reach, and keeps what it has.
  pub spread_closed :
      (fuel : ℕ) (changed : List K) {result : List K}
      → spread fuel graph changed ≡ some result
      → (is_empty (descendants result graph) ≡ true)
        × ((key : K) → elem key changed ≡ true → elem key result ≡ true)
  unfolding spread
  spread_closed zero changed h = cc
  spread_closed (suc fuel) changed {result} h =
      elim (Bool-cases (is_empty (descendants changed graph))) [
        | inl t ↦
            let same : some changed ≡ some result = rw (t, spread) at h in
            let same' : changed ≡ result = cc in
            (
              subst (λ c. is_empty (descendants c graph) ≡ true) same' t,
              λ key m. ap (elem key) (sym same') ∙ m,
            )
        | inr f ↦
            let (c, k) =
              spread_closed fuel (changed ++ descendants changed graph) (rw (f, spread) at h) in
            (c, λ key m. k key (rw (elem-append key changed (descendants changed graph), m) refl))
      ]

  -- Hence it has everything downstream.
  pub spread_complete :
      (first result : List K)
      → is_empty (descendants result graph) ≡ true
      → ((key : K) → elem key first ≡ true → elem key result ≡ true)
      → (key : K) → Downstream graph first key
      → elem key result ≡ true
  spread_complete first result c k key (changed_itself h) = k key h
  spread_complete first result c k key (depends node d m edge before) =
      let there = spread_complete first result c k d before in
      elim (Bool-cases (elem node.0 result)) [
        | inl t ↦ t
        | inr f ↦
            let reached : any (λ dependency. elem dependency result) node.1 ≡ true =
              any_intro (λ dependency. elem dependency result) node.1 (elem-mem d node.1 edge)
                there in
            let kept = filter-mem (is_reached result) graph m (rw (f, reached) refl) in
            let member =
              mem_map (λ (n : K × List K). n.0) (filter (is_reached result) graph) kept in
            let left = is_empty_of_mem (descendants result graph) member in cc
      ]

  -- What the loop returns is what is downstream.
  pub spread_iff :
      (first : List K) (fuel : ℕ) {result : List K}
      → spread fuel graph first ≡ some result
      → (key : K) → (elem key result ≡ true) ↔ Downstream graph first key
  spread_iff first fuel {result} h key =
      let (c, k) = spread_closed fuel first h in
      (
        spread_sound first fuel first (λ k m. changed_itself m) h key,
        spread_complete first result c k key,
      )

  -- The nodes that are not changed yet.
  abbrev unchanged : List K → Graph K
  unchanged changed = filter (λ node. not (elem node.0 changed)) graph

  -- Where fewer nodes pass a stronger test,
  filter_le :
      (p q : K × List K → Bool) (nodes : Graph K)
      → ((node : K × List K) → p node ≡ true → q node ≡ true)
      → length (filter p nodes) ≤ length (filter q nodes)
  filter_le p q [] h = omega arith
  filter_le p q (node ∷ nodes) h = ground (arith, h node, filter_le p q nodes h)

  filter_lt :
      (p q : K × List K → Bool) (nodes : Graph K)
      → ((node : K × List K) → p node ≡ true → q node ≡ true)
      → {node : K × List K} → Memᴰ node nodes
      → p node ≡ false
      → q node ≡ true
      → length (filter p nodes) < length (filter q nodes)
  filter_lt p q [] h m f t = elim m [ ]
  filter_lt p q (n ∷ nodes) h (Memᴰ.head same) f t =
      let here = ap p (sym same) in
      let there = ap q (sym same) in ground (arith, filter_le p q nodes h)
  filter_lt p q (n ∷ nodes) h (Memᴰ.tail m) f t = ground (arith, h n, filter_lt p q nodes h m f t)

  -- so a round that reaches something leaves fewer nodes unchanged.
  round_falls :
      (changed : List K)
      → is_empty (descendants changed graph) ≡ false
      → length (unchanged (changed ++ descendants changed graph)) < length (unchanged changed)
  round_falls changed h =
      let (key, here) = some_reached (descendants changed graph) refl in
      let (node, m, same) =
        elem-map (λ (n : K × List K). n.0) key (filter (is_reached changed) graph) here in
      let reached = filter_test (is_reached changed) graph m in
      let later = elem-append node.0 changed (descendants changed graph) in
      let added = elem-map_of_mem (λ (n : K × List K). n.0) (filter (is_reached changed) graph) m in
      filter_lt (λ n. not (elem n.0 (changed ++ descendants changed graph)))
        (λ n. not (elem n.0 changed)) graph
        (λ n t. ground (arith, elem-append n.0 changed (descendants changed graph)))
        (mem-filter (is_reached changed) graph m) (ground arith) (ground arith)
    where
      some_reached :
          (reached : List K)
          → reached ≡ descendants changed graph
          → (key : K) × (elem key (descendants changed graph) ≡ true)
      some_reached [] same = absurd (let e = ap is_empty same in cc)
      some_reached (key ∷ rest) same =
          (key, subst (λ r. elem key r ≡ true) same (ground (arith, e.beq_iff key key)))

  -- A round of fuel for each node, and one to stop.
  pub spread_ends :
      (fuel : ℕ) (changed : List K)
      → length (unchanged changed) < fuel
      → (result : List K) × (spread fuel graph changed ≡ some result)
  unfolding spread
  spread_ends zero changed h = absurd (omega arith)
  spread_ends (suc fuel) changed h = elim (Bool-cases (is_empty (descendants changed graph))) [
    | inl t ↦ (changed, rw (t, spread) refl)
    | inr f ↦
        let (result, found) =
          spread_ends fuel (changed ++ descendants changed graph)
            (omega (arith, round_falls changed f)) in
        (result, rw (f, spread) found)
  ]

  -- With a round of fuel for each node and one to stop, the loop ends, and it ends with the ids that
  -- are downstream of the first ones, and no other.
  pub spread_lem :
      (first : List K)
      → (result : List K) × (spread (suc (length graph)) graph first ≡ some result)
        × ((key : K) → (elem key result ≡ true) ↔ Downstream graph first key)
  spread_lem first =
      let bound = length-filter-le (λ node. not (elem node.0 first)) graph in
      let (result, h) = spread_ends (suc (length graph)) first (omega (arith, bound)) in
      (result, h, λ key. spread_iff first (suc (length graph)) h key)
