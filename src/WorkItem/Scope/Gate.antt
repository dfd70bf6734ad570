-- ===== src/WorkItem/Scope/Gate.antt =====
-- What `write_staged_file` lets be written (app/domain/code/git_service.py).
use project_os.Base.{
  ℕ, String, ◌≡◌, refl, ap, ◌∙◌, subst, Bool, true, not, ◌&&◌, ◌||◌, Option, some, List, [], ◌∷◌,
  ◌++◌, ◌==◌, string_eq, nat_eq, is_empty, Bool-cases, Option-cases, inl, inr, arith,
}
use project_os.Execution.{partitioned, mode_eq}
use project_os.WorkItem.{WorkItem}
use project_os.WorkItem.Paths.{begins}
use project_os.WorkItem.Scope.{
  scope_prefix, partition_path, matches_any, may_write, write_staged_file,
}

-- A path is in the partition of a slot.
abbrev pub in_partition : Option String → List ℕ → Bool
in_partition slot path = is_empty (scope_prefix slot) || begins path (scope_prefix slot)

begins-append : (prefix path : List ℕ) → begins (prefix ++ path) prefix ≡ true
begins-append [] [] = refl
begins-append [] (c ∷ path) = refl
begins-append (c ∷ prefix) path = ground (arith, begins-append prefix path, nat_eq.beq_iff c c)

begins_or : {b : Bool} (a : Bool) → b ≡ true → (a || b) ≡ true
begins_or a h = ground arith

pub partition_path-lands :
    (item : WorkItem) (path : List ℕ) {target : List ℕ}
    → partition_path item path ≡ some target
    → in_partition item.slot target ≡ true
partition_path-lands item path {target} h =
    let prefix = scope_prefix item.slot in
    elim (Bool-cases (in_partition item.slot path)) [
      | inl t ↦
          let e = rw (t, partition_path) at h in
          let same : path ≡ target = cc in subst (λ p. in_partition item.slot p ≡ true) same t
      | inr f ↦
          elim (Bool-cases (
            not (is_empty item.allowed_paths) && matches_any (prefix ++ path) item.allowed_paths)) [
              | inl t ↦
                  let e = rw (f, t, partition_path) at h in
                  let same : prefix ++ path ≡ target = cc in
                  subst (λ p. in_partition item.slot p ≡ true) same
                    (begins_or (is_empty prefix) (begins-append prefix path))
              | inr n ↦ absurd (let e = rw (f, n, partition_path) at h in cc)
            ]
    ]

-- What the gate lets be written,
pub write_staged_file-eq-some :
    (item : WorkItem) (path : List ℕ) {target : List ℕ}
    → write_staged_file item path ≡ some target
    → ((item.execution_mode == partitioned) ≡ true)
      × (partition_path item path ≡ some target)
      × (may_write item target ≡ true)
unfolding write_staged_file
write_staged_file-eq-some item path {target} h =
    elim (Bool-cases (item.execution_mode == partitioned)) [
      | inr other ↦ absurd (let e = rw (other, write_staged_file) at h in cc)
      | inl mode ↦ elim (Option-cases (partition_path item path)) [
        | inl none_there ↦ absurd (let e = rw (mode, none_there, write_staged_file) at h in cc)
        | inr (found, p) ↦ elim (Bool-cases (may_write item found)) [
          | inr refused ↦ absurd (let e = rw (mode, p, refused, write_staged_file) at h in cc)
          | inl granted ↦
              let e = rw (mode, p, granted, write_staged_file) at h in
              let same : found ≡ target = cc in
              (mode, p ∙ ap some same, subst (λ t. may_write item t ≡ true) same granted)
        ]
      ]
    ]

-- and a path of the partition that it grants.
pub write_staged_file-some :
    (item : WorkItem) (path : List ℕ)
    → (item.execution_mode == partitioned) ≡ true
    → in_partition item.slot path ≡ true
    → may_write item path ≡ true
    → write_staged_file item path ≡ some path
unfolding write_staged_file
write_staged_file-some item path mode inside granted =
    rw (mode, inside, granted, write_staged_file, partition_path) refl
