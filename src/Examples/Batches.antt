-- ===== src/Examples/Batches.antt =====
-- A batch of three items of one agent in the first wave, and one of a later wave.
use project_os.Base.{
  ℕ, ◌≤◌, ◌≡◌, refl, true, false, ◌==◌, string_eq, nat_eq, Option, some, List, [], ◌∷◌, map, all,
  count_if, leb, length, is_empty, arith, String,
}
use project_os.WorkItem.{WorkItem}
use project_os.Runner.Batch.{select_schedulable_items, select_schedulable_items_lem}
use project_os.Examples.Items.{plain}

abbrev late : WorkItem
late = record (plain "late" []) { wave = 1 }

abbrev others : List WorkItem
others = plain "a" [] ∷ plain "b" [] ∷ plain "c" [] ∷ []

abbrev two_each : String → Option ℕ
two_each name = some 2

batch : map (λ i. i.id) (select_schedulable_items two_each 4 (late ∷ others)) ≡ "a" ∷ "b" ∷ []
unfolding select_schedulable_items
batch = refl

select_schedulable_items_lem_example :
    (length (select_schedulable_items two_each 4 (late ∷ others)) ≤ 4)
    × (count_if
          (λ i. i.agent_id == "architecture_agent")
          (select_schedulable_items two_each 4 (late ∷ others))
        ≤ 2)
    × (all
          (λ i. all (λ r. leb i.wave r.wave) (late ∷ others))
          (select_schedulable_items two_each 4 (late ∷ others))
        ≡ true)
    × (is_empty (select_schedulable_items two_each 4 (late ∷ others)) ≡ false)
select_schedulable_items_lem_example =
    select_schedulable_items_lem two_each 4 late others "architecture_agent" (omega arith)
      (λ name. omega arith)
