-- ===== src/WorkItem/Scope/Narrows.antt =====
-- What a repair that passes `validate_scope_transition` (app/orchestration/work_item.py) may write,
-- beside the work item.
use project_os.Base.{
  ℕ, String, ◌≡◌, refl, ap, ◌∙◌, Bool, true, false, not, ◌&&◌, ◌||◌, List, [], ◌∷◌, string_eq,
  list_eq, option_eq, subset, is_empty, Bool-cases, some, nat_eq, ◌==◌, inl, inr, ok, arith,
}
use project_os.Execution.{partitioned, mode_eq}
use project_os.WorkItem.{WorkItem}
use project_os.WorkItem.Scope.{
  check_revised, validate_scope_transition, matches_any, may_write, write_staged_file,
}
use project_os.WorkItem.Scope.Gate.{
  in_partition, partition_path-lands, write_staged_file-eq-some, write_staged_file-some,
}
use project_os.WorkItem.Scope.Matching.{
  no_directories, matches_any-checked, matches_any-subset, or_right,
}

gate_denies :
    (patterns : List String) (path : List ℕ)
    → not (not (is_empty patterns) && matches_any path patterns) ≡ true
    → matches_any path patterns ≡ false
unfolding matches_any
gate_denies [] path h = refl
gate_denies (pattern ∷ patterns) path h = not_true (matches_any path (pattern ∷ patterns)) h
  where
    not_true : (b : Bool) → not b ≡ true → b ≡ false
    not_true b h = ground arith

gate_split :
    (item : WorkItem) (path : List ℕ)
    → may_write item path ≡ true
    → ((is_empty item.allowed_paths || matches_any path item.allowed_paths) ≡ true)
      × (not (not (is_empty item.forbidden_paths) && matches_any path item.forbidden_paths) ≡ true)
      × ((is_empty item.owned_files || matches_any path item.owned_files) ≡ true)
unfolding may_write
gate_split item path h = three _ _ _ h
  where
    three : (a b c : Bool) → (a && b && c) ≡ true → (a ≡ true) × (b ≡ true) × (c ≡ true)
    three a b c h = ground arith

gate_passes :
    (item : WorkItem) (path : List ℕ)
    → (is_empty item.allowed_paths || matches_any path item.allowed_paths) ≡ true
    → matches_any path item.forbidden_paths ≡ false
    → (is_empty item.owned_files || matches_any path item.owned_files) ≡ true
    → may_write item path ≡ true
unfolding may_write
gate_passes item path a f o =
    three _ (not (is_empty item.forbidden_paths)) (matches_any path item.forbidden_paths) _ a f o
  where
    three : (a e m c : Bool) → a ≡ true → m ≡ false → c ≡ true → (a && not (e && m) && c) ≡ true
    three a e m c h f o = ground arith

module _ (item revised : WorkItem) where
  validate_scope_transition-ok :
      validate_scope_transition item revised ≡ ok tt
      → (item.owned_files ≡ revised.owned_files)
        × (subset item.forbidden_paths revised.forbidden_paths ≡ true)
        × (is_empty item.allowed_paths ≡ false
            → check_revised item.allowed_paths revised.allowed_paths ≡ ok tt)
  unfolding validate_scope_transition
  validate_scope_transition-ok h = (
    (list_eq.beq_iff item.owned_files revised.owned_files).0 (ground arith),
    ground arith,
    λ some_path. ground arith,
  )

  -- What the repair is granted the original is granted, apart from the slots.
  may_write-narrows :
      no_directories item.allowed_paths ≡ true
      → no_directories revised.allowed_paths ≡ true
      → is_empty revised.allowed_paths ≡ false
      → validate_scope_transition item revised ≡ ok tt
      → (path : List ℕ) → may_write revised path ≡ true
      → may_write item path ≡ true
  may_write-narrows plain plain' some_path h path w =
      let (owned, denied, checked) = validate_scope_transition-ok h in
      let (granted, passed, own) = gate_split revised path w in
      gate_passes item path (is_granted checked (named_path granted))
        (matches_any-subset item.forbidden_paths revised.forbidden_paths path denied
          (gate_denies revised.forbidden_paths path passed))
        (ap (λ files. is_empty files || matches_any path files) owned ∙ own)
    where
      named_path :
          (is_empty revised.allowed_paths || matches_any path revised.allowed_paths) ≡ true
          → matches_any path revised.allowed_paths ≡ true
      named_path granted = rw some_path at granted

      is_granted :
          (is_empty item.allowed_paths ≡ false
            → check_revised item.allowed_paths revised.allowed_paths ≡ ok tt)
          → matches_any path revised.allowed_paths ≡ true
          → (is_empty item.allowed_paths || matches_any path item.allowed_paths) ≡ true
      is_granted checked granted = elim (Bool-cases (is_empty item.allowed_paths)) [
        | inl t ↦ rw t refl
        | inr f ↦ or_right _ (matches_any path item.allowed_paths) (
            matches_any-checked item.allowed_paths revised.allowed_paths path plain plain'
              (checked f) granted)
      ]

  same_mode :
      validate_scope_transition item revised ≡ ok tt
      → (item.execution_mode == revised.execution_mode) ≡ true
  unfolding validate_scope_transition
  same_mode h = ground arith

  -- Where neither declares a path that ends with a slash, the repair declares some path, and both are
  -- of the same slot, every file that the gate lets the repaired work item write, it lets the
  -- original one write.
  pub validate_scope_transition-narrows :
      no_directories item.allowed_paths ≡ true
      → no_directories revised.allowed_paths ≡ true
      → is_empty revised.allowed_paths ≡ false
      → item.slot ≡ revised.slot
      → validate_scope_transition item revised ≡ ok tt
      → (path : List ℕ) {target : List ℕ} → write_staged_file revised path ≡ some target
      → write_staged_file item target ≡ some target
  validate_scope_transition-narrows plain plain' some_path slots h path {target} w =
      let (mode, there, granted) = write_staged_file-eq-some revised path w in
      let mine = may_write-narrows plain plain' some_path h target granted in
      let same = (mode_eq.beq_iff item.execution_mode revised.execution_mode).0 (same_mode h) in
      write_staged_file-some item target (ap (λ m. m == partitioned) same ∙ mode)
        (ap (λ slot. in_partition slot target) slots ∙ partition_path-lands revised path there) mine
