-- ===== src/WorkItem/Kept.antt =====
-- What `WorkItem.__post_init__` (app/orchestration/work_item.py) leaves as it was given.
use project_os.Base.{String, ◌≡◌, ap, ◌∙◌, some, ok, >>-eq-ok, >>=-eq-ok, arith}
use project_os.WorkItem.{WorkItem, Digest}
use project_os.WorkItem.Init.{init, check_given, check_tooled, keyed, filled, seal, settle_tools}
use project_os.WorkItem.Grants.{seal_cases, settle_tools_lem}

-- A given digest is the digest of the item.
contract_digest-seal :
    (digest : Digest) (item : WorkItem) {made : WorkItem} {d : String}
    → item.contract_digest ≡ some d
    → seal digest item ≡ ok made
    → made.contract_digest ≡ some d
unfolding seal
contract_digest-seal digest item g h = ground arith

-- The id, the mode and the dependencies of the made item are those of the given one,
pub init_keeps :
    (digest : Digest) (given : WorkItem) {item : WorkItem}
    → init digest given ≡ ok item
    → (item.id ≡ given.id)
      × (item.dependencies ≡ given.dependencies)
      × (item.execution_mode ≡ given.execution_mode)
unfolding init
init_keeps digest given h =
    let (c1, h1) = >>-eq-ok (check_given given) _ h in
    let (tooled, c2, h2) = >>=-eq-ok (settle_tools (keyed given)) _ h1 in
    let (c3, h3) = >>-eq-ok (check_tooled tooled) (seal digest (filled tooled)) h2 in
    let kept = settle_tools_lem (keyed given) c2 in
    let legacy = ap (λ (w : WorkItem). w.legacy_contract_digest) kept in
    let (d, l, same, s) = seal_cases digest (filled tooled) legacy h3 in
    (
      ap (λ (w : WorkItem). w.id) same ∙ ap (λ (w : WorkItem). w.id) kept,
      ap (λ (w : WorkItem). w.dependencies) same ∙ ap (λ (w : WorkItem). w.dependencies) kept,
      ap (λ (w : WorkItem). w.execution_mode) same ∙ ap (λ (w : WorkItem). w.execution_mode) kept,
    )

-- and so is its digest, where one was given.
pub init_keeps_digest :
    (digest : Digest) (given : WorkItem) {item : WorkItem} {d : String}
    → given.contract_digest ≡ some d
    → init digest given ≡ ok item
    → item.contract_digest ≡ some d
unfolding init
init_keeps_digest digest given g h =
    let (c1, h1) = >>-eq-ok (check_given given) _ h in
    let (tooled, c2, h2) = >>=-eq-ok (settle_tools (keyed given)) _ h1 in
    let (c3, h3) = >>-eq-ok (check_tooled tooled) (seal digest (filled tooled)) h2 in
    let kept = settle_tools_lem (keyed given) c2 in
    contract_digest-seal digest (filled tooled) (ap (λ (w : WorkItem). w.contract_digest) kept ∙ g)
      h3
