-- ===== src/Tools/Written.antt =====
-- What is written to the files of grants is read again, and what is listed is parsed
-- (app/tool_manager/grants.py).
use project_os.Base.{
  String, ◌≡◌, refl, ap, sym, ◌∙◌, subst, true, false, not, Option, none, some, List, [], ◌∷◌, ◌++◌,
  Memᴰ, ◌==◌, string_eq, filter, mem-filter, filter-mem, map, mem-map, inl, inr, Bool-cases,
}
use project_os.Tools.{CapabilityGrant}
use project_os.Tools.Grants.{
  GrantFiles, read_path, first_of_each, read_all, is_of_project, write_path, write_all, is_own,
  list_all, not_empty, parsed,
}
use project_os.Tools.Once.{
  ids, once_named, mem-append, append-mem, first_of_each-sub, first_of_each-has, first_of_each-once,
  filter-once, one_of_once,
}

-- What is written is read again: both files together.
read-write_path :
    (grants : List CapabilityGrant) (file : Option (List CapabilityGrant))
    → read_path (write_path grants file) ≡ grants
read-write_path [] none = refl
read-write_path [] (some old) = refl
read-write_path (x ∷ grants) file = refl

read_all-write_all :
    (grants : List CapabilityGrant) (files : GrantFiles)
    → read_all (write_all grants files)
      ≡ first_of_each []
          (filter is_of_project grants ++ filter (λ grant. not (is_of_project grant)) grants)
unfolding read_all write_all
read_all-write_all grants files =
    rw
      (
        read-write_path (filter is_of_project grants) files.project_file,
        read-write_path (filter (λ grant. not (is_of_project grant)) grants) files.trace_file,
      )
      refl

mem-parts :
    {other : CapabilityGrant} (grants : List CapabilityGrant)
    → Memᴰ other (filter is_of_project grants ++ filter (λ grant. not (is_of_project grant)) grants)
    → Memᴰ other grants
mem-parts grants m = elim (mem-append (filter is_of_project grants) _ m) [
  | inl k ↦ mem-filter is_of_project grants k
  | inr k ↦ mem-filter (λ grant. not (is_of_project grant)) grants k
]

parts-mem :
    {other : CapabilityGrant} (grants : List CapabilityGrant)
    → Memᴰ other grants
    → Memᴰ other (filter is_of_project grants ++ filter (λ grant. not (is_of_project grant)) grants)
parts-mem {other} grants m =
    append-mem (filter is_of_project grants) _ (elim (Bool-cases (is_of_project other)) [
      | inl t ↦ inl (filter-mem is_of_project grants m t)
      | inr f ↦ inr (filter-mem (λ grant. not (is_of_project grant)) grants m (ap not f))
    ])

-- Where each id has one grant, all that is written with an id is read.
pub mem-read_written :
    {other : CapabilityGrant} (grants : List CapabilityGrant) (files : GrantFiles)
    → once_named (ids grants) ≡ true
    → (other.grant_id == "") ≡ false
    → Memᴰ other grants
    → Memᴰ other (read_all (write_all grants files))
mem-read_written {other} grants files o n m =
    let parts = filter is_of_project grants ++ filter (λ grant. not (is_of_project grant)) grants in
    let (found, k, same) = first_of_each-has [] parts n refl (parts-mem grants m) in
    let own = mem-parts grants (first_of_each-sub [] parts k) in
    let one = one_of_once grants o n m own same in
    subst (λ l. Memᴰ other l) (sym (read_all-write_all grants files))
      (subst (λ g. Memᴰ g (first_of_each [] parts)) one k)

pub read_written-mem :
    {other : CapabilityGrant} (grants : List CapabilityGrant) (files : GrantFiles)
    → Memᴰ other (read_all (write_all grants files))
    → Memᴰ other grants
read_written-mem {other} grants files m =
    mem-parts grants
      (first_of_each-sub [] _ (subst (λ l. Memᴰ other l) (read_all-write_all grants files) m))

read_once : (files : GrantFiles) → once_named (ids (read_all files)) ≡ true
unfolding read_all
read_once files = first_of_each-once [] (read_path files.project_file ++ read_path files.trace_file)

-- A grant that was parsed is parsed to itself.
not_empty-again : (o : Option String) → not_empty (not_empty o) ≡ not_empty o
not_empty-again none = refl
not_empty-again (some s) = elim (Bool-cases (s == "")) [
  | inl t ↦ rw t refl
  | inr f ↦ rw (f, not_empty) (rw f refl)
]

parsed-again : (grant : CapabilityGrant) → parsed (parsed grant) ≡ parsed grant
parsed-again grant = λ i. record grant {
  work_item_id = not_empty-again grant.work_item_id i;
  expires_at = not_empty-again grant.expires_at i;
}

ids-parsed : (grants : List CapabilityGrant) → ids (map parsed grants) ≡ ids grants
ids-parsed [] = refl
ids-parsed (x ∷ grants) = ap (◌∷◌ x.grant_id) (ids-parsed grants)

pub parsed-listed :
    (trace_id : String) (files : GrantFiles) {grant : CapabilityGrant}
    → Memᴰ grant (list_all trace_id files)
    → parsed grant ≡ grant
unfolding list_all
parsed-listed trace_id files {grant} m =
    let (raw, k, same) =
      mem-map parsed (read_all files)
        (mem-filter (is_own trace_id) (map parsed (read_all files)) m) in
    ap parsed (sym same) ∙ parsed-again raw ∙ same

pub listed_once :
    (trace_id : String) (files : GrantFiles) → once_named (ids (list_all trace_id files)) ≡ true
unfolding list_all
listed_once trace_id files =
    filter-once (is_own trace_id) (map parsed (read_all files))
      (ap once_named (ids-parsed (read_all files)) ∙ read_once files)
