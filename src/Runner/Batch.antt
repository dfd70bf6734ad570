-- ===== src/Runner/Batch.antt =====
-- `GraphRunner._select_schedulable_items` (app/orchestration/runner.py): the ready work items of the
-- earliest wave, within the limits of the agents and the number of workers.
use project_os.Base.{
  ℕ, suc, ◌+◌, ◌≤◌, ◌<◌, ◌≡◌, refl, Bool, true, false, ap, ◌∙◌, String, Option, none, some, List,
  [], ◌∷◌, ◌==◌, string_eq, nat_eq, all, count_if, filter, length, is_empty, leb, if◌then◌else◌,
  Dict, lookup, insert, lookup-insert, arith, Bool-cases, inl, inr, filter_test, filter-mem, Memᴰ,
  all_intro, is_empty_of_mem,
}
use project_os.WorkItem.{WorkItem}

-- min(item.wave for item in ready_items), of a list that is not empty
abbrev pub first_wave : WorkItem → List WorkItem → ℕ
first_wave item [] = item.wave
first_wave item (next ∷ items) =
    let rest = first_wave next items in if leb item.wave rest then item.wave else rest

-- running_by_agent.get(agent_id, 0)
abbrev pub running : String → Dict String ℕ → ℕ
running agent_id by_agent = elim (lookup agent_id by_agent) [ none ↦ 0 | some n ↦ n ]

-- The definition of an agent gives its number of parallel instances.
module _ (max_parallel_instances : String → Option ℕ) (max_workers : ℕ) where
  abbrev pub agent_limit : String → ℕ
  agent_limit agent_id = elim (max_parallel_instances agent_id) [ none ↦ 1 | some limit ↦ limit ]

  -- The loop, with the number of the selected items.
  abbrev pub select_from : ℕ → Dict String ℕ → List WorkItem → List WorkItem
  select_from selected by_agent [] = []
  select_from selected by_agent (item ∷ items) =
      let now = running item.agent_id by_agent in
      let skipped = select_from selected by_agent items in
      let taken = select_from (suc selected) (insert item.agent_id (now + 1) by_agent) items in
      if leb (agent_limit item.agent_id) now
      then skipped
      else item ∷ (if suc selected == max_workers then [] else taken)

  unfoldable pub select_schedulable_items : List WorkItem → List WorkItem
  select_schedulable_items [] = []
  select_schedulable_items (item ∷ items) =
      let wave = first_wave item items in
      select_from 0 [] (filter (λ i. i.wave == wave) (item ∷ items))

  all-select_from :
      (p : WorkItem → Bool) (n : ℕ) (by_agent : Dict String ℕ) (items : List WorkItem)
      → all p items ≡ true
      → all p (select_from n by_agent items) ≡ true
  all-select_from p n by_agent [] h = refl
  all-select_from p n by_agent (item ∷ items) h =
      let next = running item.agent_id by_agent in
      ground (
        arith,
        all-select_from p n by_agent items,
        all-select_from p (suc n) (insert item.agent_id (next + 1) by_agent) items,
      )

  -- No more than there are workers left.
  length-select_from :
      (n : ℕ) (by_agent : Dict String ℕ) (items : List WorkItem)
      → n < max_workers
      → n + length (select_from n by_agent items) ≤ max_workers
  length-select_from n by_agent [] h = omega arith
  length-select_from n by_agent (item ∷ items) h =
      let next = running item.agent_id by_agent in
      ground (
        arith,
        length-select_from n by_agent items,
        length-select_from (suc n) (insert item.agent_id (next + 1) by_agent) items,
      )

  running-insert :
      (agent other : String) (v : ℕ) (by_agent : Dict String ℕ)
      → running agent (insert other v by_agent)
        ≡ (if agent == other then v else running agent by_agent)
  running-insert agent other v by_agent = elim (Bool-cases (agent == other)) [
    | inl t ↦ rw (running, lookup-insert other agent v by_agent, t) refl
    | inr f ↦ rw (running, lookup-insert other agent v by_agent, f) refl
  ]

  -- With what already runs, an agent gets no more than its limit.
  count-select_from :
      (agent : String) (n : ℕ) (by_agent : Dict String ℕ) (items : List WorkItem)
      → running agent by_agent ≤ agent_limit agent
      → running agent by_agent
          + count_if (λ item. item.agent_id == agent) (select_from n by_agent items)
        ≤ agent_limit agent
  count-select_from agent n by_agent [] h = omega arith
  count-select_from agent n by_agent (item ∷ items) h =
      let now = running item.agent_id by_agent in
      let skipped = count-select_from agent n by_agent items h in
      let after = running-insert agent item.agent_id (now + 1) by_agent in
      let taken = count-select_from agent (suc n) (insert item.agent_id (now + 1) by_agent) items in
      elim (Bool-cases (leb (agent_limit item.agent_id) now)) [
        | inl full ↦ rw full skipped
        | inr room ↦ rw room (elim (Bool-cases (agent == item.agent_id)) [
          | inl t ↦
              let mine = (string_eq.beq_iff agent item.agent_id).0 t in
              let now_mine : running agent by_agent ≡ now = ap (λ a. running a by_agent) mine in
              let limit_mine : agent_limit agent ≡ agent_limit item.agent_id =
                ap agent_limit mine in
              let grown : running agent (insert item.agent_id (now + 1) by_agent) ≡ now + 1 =
                after ∙ chosen (now + 1) (running agent by_agent) _ t in
              let below = under (agent_limit item.agent_id) now room in
              omega (
                arith,
                taken (omega arith),
                stopped agent (suc n == max_workers)
                    (select_from (suc n) (insert item.agent_id (now + 1) by_agent) items),
                at_most_one (item.agent_id == agent),
              )
          | inr other ↦
              let kept : running agent (insert item.agent_id (now + 1) by_agent)
                  ≡ running agent by_agent =
                after ∙ passed (now + 1) (running agent by_agent) _ other in
              omega (
                arith,
                taken (omega arith),
                stopped agent (suc n == max_workers)
                    (select_from (suc n) (insert item.agent_id (now + 1) by_agent) items),
                not_one other,
              )
        ])
      ]
    where
      chosen : (x y : ℕ) (b : Bool) → b ≡ true → (if b then x else y) ≡ x
      chosen x y b h = rw h refl

      passed : (x y : ℕ) (b : Bool) → b ≡ false → (if b then x else y) ≡ y
      passed x y b h = rw h refl

      under : (limit now : ℕ) → leb limit now ≡ false → now < limit
      under limit now h = ground arith

      at_most_one : (b : Bool) → (if b then 1 else 0) ≤ 1
      at_most_one true = omega arith
      at_most_one false = omega arith

      not_one : (agent == item.agent_id) ≡ false → (if item.agent_id == agent then 1 else 0) ≤ 0
      not_one h =
          ground
            (arith, string_eq.beq_iff agent item.agent_id, string_eq.beq_iff item.agent_id agent)

      stopped :
          (agent : String) (b : Bool) (rest : List WorkItem)
          → count_if (λ i. i.agent_id == agent) (if b then [] else rest)
            ≤ count_if (λ i. i.agent_id == agent) rest
      stopped agent true rest = omega arith
      stopped agent false rest = omega arith

  first_wave-mem :
      (item : WorkItem) (items : List WorkItem)
      → (x : WorkItem) × Memᴰ x (item ∷ items) × (x.wave ≡ first_wave item items)
  first_wave-mem item [] = (item, Memᴰ.head refl, refl)
  first_wave-mem item (next ∷ items) =
      let (x, m, p) = first_wave-mem next items in
      elim (Bool-cases (leb item.wave (first_wave next items))) [
        | inl t ↦ (item, Memᴰ.head refl, rw t refl)
        | inr f ↦ (x, Memᴰ.tail m, rw f p)
      ]

  -- No item is in an earlier wave.
  first_wave-le :
      (item : WorkItem) (items : List WorkItem) {r : WorkItem}
      → Memᴰ r (item ∷ items)
      → leb (first_wave item items) r.wave ≡ true
  first_wave-le item [] (Memᴰ.head e) = rw e (ground arith)
  first_wave-le item [] (Memᴰ.tail m) = elim m [ ]
  first_wave-le item (next ∷ items) {r} (Memᴰ.head e) =
      let same = ap (λ (i : WorkItem). i.wave) e in ground arith
  first_wave-le item (next ∷ items) (Memᴰ.tail m) =
      let later = first_wave-le next items m in ground arith

  -- The first of a list that is not empty is taken.
  some-select_from :
      (items : List WorkItem)
      → ((agent : String) → 1 ≤ agent_limit agent)
      → is_empty items ≡ false
      → is_empty (select_from 0 [] items) ≡ false
  some-select_from [] positive h = cc
  some-select_from (item ∷ items) positive h = ground (arith, positive item.agent_id)

  -- A batch has no more items than there are workers, no more of an agent than its limit, and each of
  -- them is in no later wave than any ready item; where every agent may run, some item is in it.
  pub select_schedulable_items_lem :
      (item : WorkItem) (items : List WorkItem) (agent : String)
      → 1 ≤ max_workers
      → ((name : String) → 1 ≤ agent_limit name)
      → (length (select_schedulable_items (item ∷ items)) ≤ max_workers)
        × (count_if (λ i. i.agent_id == agent) (select_schedulable_items (item ∷ items))
            ≤ agent_limit agent)
        × (all
              (λ i. all (λ r. leb i.wave r.wave) (item ∷ items))
              (select_schedulable_items (item ∷ items))
            ≡ true)
        × (is_empty (select_schedulable_items (item ∷ items)) ≡ false)
  unfolding select_schedulable_items
  select_schedulable_items_lem item items agent workers positive =
      let wave = first_wave item items in
      let candidates = filter (λ (i : WorkItem). i.wave == wave) (item ∷ items) in
      let (x, m, p) = first_wave-mem item items in
      let here =
        filter-mem (λ (i : WorkItem). i.wave == wave) (item ∷ items) m
          ((nat_eq.beq_iff x.wave wave).1 p) in
      (
        omega (arith, length-select_from 0 [] candidates (omega arith)),
        omega (arith, count-select_from agent 0 [] candidates (omega (arith, positive agent))),
        all-select_from (λ i. all (λ r. leb i.wave r.wave) (item ∷ items)) 0 [] candidates
            (all_intro (λ i. all (λ r. leb i.wave r.wave) (item ∷ items)) candidates
              (λ i n.
                let at_first =
                  (nat_eq.beq_iff i.wave wave).0
                    (filter_test (λ (i : WorkItem). i.wave == wave) (item ∷ items) n) in
                all_intro (λ r. leb i.wave r.wave) (item ∷ items)
                  (λ r q. ap (λ w. leb w r.wave) at_first ∙ first_wave-le item items q))),
        some-select_from candidates positive (is_empty_of_mem candidates here),
      )
