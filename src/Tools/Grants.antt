-- ===== src/Tools/Grants.antt =====
-- `CapabilityGrantStore` (app/tool_manager/grants.py): the ledgers of grants of the project and of the
-- trace. A file is the list of its grants, where there is one; what `uuid4` and the clock give to a new
-- grant are arguments.
use project_os.Base.{
  ℕ, String, Bool, not, ◌&&◌, ◌||◌, Option, none, some, List, [], ◌∷◌, ◌++◌, ◌==◌, string_eq,
  option_eq, nat_eq, elem, map, filter, find?, strip, length, is_blank, if◌then◌else◌, Result, ok,
  raise, ◌>>◌, refuse_if,
}
use project_os.Tools.{CapabilityGrant, is_active}

pub record GrantFiles : Type 0 where
  pub project_file : Option (List CapabilityGrant)
  pub trace_file : Option (List CapabilityGrant)

pub data GrantError : Type 0 where
  unknown_scope blank_name unknown_grant : GrantError

-- _read_path
abbrev pub read_path : Option (List CapabilityGrant) → List CapabilityGrant
read_path none = []
read_path (some grants) = grants

-- The loop of _read_all: the first grant of each id, and every one without an id.
abbrev pub first_of_each : List String → List CapabilityGrant → List CapabilityGrant
first_of_each seen [] = []
first_of_each seen (grant ∷ grants) =
    let unnamed = first_of_each seen grants in
    let named = first_of_each (grant.grant_id ∷ seen) grants in
    if grant.grant_id == ""
    then grant ∷ unnamed
    else if elem grant.grant_id seen
    then unnamed
    else grant ∷ named

unfoldable pub read_all : GrantFiles → List CapabilityGrant
read_all files = first_of_each [] (read_path files.project_file ++ read_path files.trace_file)

abbrev pub is_of_project : CapabilityGrant → Bool
is_of_project grant = grant.scope == "project"

-- A file is written where there is something to write or it is there.
abbrev pub write_path :
    List CapabilityGrant → Option (List CapabilityGrant) → Option (List CapabilityGrant)
write_path [] none = none
write_path grants file = some grants

unfoldable pub write_all : List CapabilityGrant → GrantFiles → GrantFiles
write_all grants files = record {
  project_file = write_path (filter is_of_project grants) files.project_file;
  trace_file = write_path (filter (λ grant. not (is_of_project grant)) grants) files.trace_file;
}

-- Whether the store of a trace is about a grant.
abbrev pub is_own : String → CapabilityGrant → Bool
is_own trace_id grant = is_of_project grant || grant.trace_id == trace_id

-- raw[key] where it is not empty
abbrev pub not_empty : Option String → Option String
not_empty none = none
not_empty (some s) = if s == "" then none else some s

-- _parse
abbrev pub parsed : CapabilityGrant → CapabilityGrant
parsed grant = record grant {
  work_item_id = not_empty grant.work_item_id;
  expires_at = not_empty grant.expires_at;
}

-- store.list(include_inactive=True)
unfoldable pub list_all : String → GrantFiles → List CapabilityGrant
unfolding read_all
list_all trace_id files = filter (is_own trace_id) (map parsed (read_all files))

-- The first grant with the id, revoked.
abbrev pub revoke_first : String → List CapabilityGrant → List CapabilityGrant
revoke_first grant_id [] = []
revoke_first grant_id (grant ∷ grants) =
    let rest = revoke_first grant_id grants in
    if grant.grant_id == grant_id
    then record grant { status = "revoked" } ∷ grants
    else grant ∷ rest

-- store.revoke(grant_id)
unfoldable pub revoke :
    String → String → GrantFiles → Result GrantError (CapabilityGrant × GrantFiles)
unfolding list_all write_all
revoke trace_id grant_id files =
    elim (find? (λ grant. grant.grant_id == grant_id) (list_all trace_id files)) [
      | none ↦ raise unknown_grant
      | some grant ↦ ok (
        record grant { status = "revoked" },
        write_all (revoke_first grant_id (list_all trace_id files)) files,
      )
    ]

module _ (parse_time : String → Option ℕ) (now : ℕ) where
  -- store.list(): the active grants; the others that were not revoked are removed from the files
  unfoldable pub list_active : String → GrantFiles → List CapabilityGrant × GrantFiles
  unfolding is_active list_all write_all
  list_active trace_id files =
      let grants = list_all trace_id files in
      let active = filter (is_active parse_time now) grants in
      (
        active,
        if not (length active == length grants)
            then write_all
                (filter (λ grant. is_active parse_time now grant || grant.status == "revoked")
                  grants)
                files
            else files,
      )

  abbrev same_request : String → String → Option String → CapabilityGrant → Bool
  same_request capability source_name work_item_id existing =
      is_active parse_time now existing
      && existing.capability == capability
      && existing.source_name == source_name
      && existing.work_item_id == work_item_id

  -- The new grant is put into the file of its scope.
  abbrev pub add_grant : CapabilityGrant → GrantFiles → GrantFiles
  add_grant grant files =
      if grant.scope == "project"
      then record files { project_file = some (read_path files.project_file ++ grant ∷ []) }
      else record files {
        trace_file =
            some
              (filter (λ item. item.status == "active") (read_path files.trace_file) ++ grant ∷ []);
      }

  -- The grant that is made, where the id and the time are `grant_id` and `approved_at`.
  abbrev pub new_grant :
      String
      → String
      → String
      → String
      → String
      → Option String
      → String
      → String
      → Option String
      → CapabilityGrant
  new_grant grant_id approved_at trace_id capability source_name work_item_id scope approved_by
        expires_at =
      record {
        grant_id = grant_id;
        trace_id = trace_id;
        work_item_id = work_item_id;
        capability = strip capability;
        source_name = strip source_name;
        scope = scope;
        approved_by = approved_by;
        approved_at = approved_at;
        expires_at = expires_at;
        status = "active";
      }

  -- store.grant(...)
  unfoldable pub grant_capability :
      String
      → String
      → String
      → String
      → String
      → Option String
      → String
      → String
      → Option String
      → GrantFiles
      → Result GrantError (CapabilityGrant × GrantFiles)
  unfolding is_active list_all
  grant_capability grant_id approved_at trace_id capability source_name work_item_id scope
        approved_by expires_at files =
      do
        refuse_if (not (elem scope ("node" ∷ "trace" ∷ "project" ∷ []))) unknown_scope
        refuse_if (is_blank capability || is_blank source_name) blank_name
        let fresh =
            new_grant grant_id approved_at trace_id capability source_name work_item_id scope
              approved_by expires_at
        elim (find? (same_request capability source_name work_item_id) (list_all trace_id files)) [
          | some existing ↦ ok (existing, files)
          | none ↦ ok (fresh, add_grant fresh files)
        ]
