-- ===== src/Nib/Policies.antt =====
-- pdsno/datastore/sqlite_store.py: the policies that a global controller distributes.
pub mod Newest
mod Tests
use partially_distributed_sm.Common.{
  Bool, List, Option, String, [], coalesce, false, filter, find_row, if◌then◌else◌, ltb, nat_eq,
  non_empty, none, some, string_eq, ℕ, ◌&&◌, ◌++◌, ◌==◌, ◌∷◌,
}
use partially_distributed_sm.Nib.Models.{
  Policy, Reply, integrity_error, missing, missing_fields, refused, result, succeeded,
}
use partially_distributed_sm.Nib.Store.{NibStore}

abbrev pub has_policy_id : String → Policy → Bool
has_policy_id id r = r.policy_id == id

-- `WHERE scope = ? AND target_region = ? AND is_active = 1`; without a region, or with an empty
-- one, the target region is not asked for.
abbrev pub is_applicable : String → Option String → Policy → Bool
is_applicable scope none r = r.scope == scope && r.is_active
is_applicable scope (some region) r =
    if non_empty region
    then r.scope == scope
      && elim r.target_region [ none ↦ false | some t ↦ t == region ]
      && r.is_active
    else r.scope == scope && r.is_active

-- `ORDER BY version DESC LIMIT 1`; of rows with the same version, the first is taken.
abbrev pub newest : Option Policy → List Policy → Option Policy
newest best [] = best
newest none (r ∷ rows) = newest (some r) rows
newest (some b) (r ∷ rows) = newest (if ltb b.version r.version then some r else some b) rows

unfoldable pub required_of_policy : Policy → List String
required_of_policy r = missing (
    ("policy_id", non_empty r.policy_id)
    ∷ ("policy_version", non_empty r.policy_version)
    ∷ ("scope", non_empty r.scope)
    ∷ ("content", non_empty r.content)
    ∷ ("distributed_by", non_empty r.distributed_by)
    ∷ [])

module _ {Blob : Type 0} where
  unfoldable pub get_active_policy : String → Option String → NibStore Blob → Option Policy
  get_active_policy scope region s = newest none (filter (is_applicable scope region) s.policies)

  abbrev pub insert_policy : Policy → NibStore Blob → NibStore Blob × Reply
  insert_policy r s = elim (find_row (has_policy_id r.policy_id) s.policies) [
    | some _ ↦ (s, integrity_error)
    | none ↦ (record s { policies = s.policies ++ r ∷ [] }, result (succeeded (some r.policy_id)))
  ]

  abbrev pub check_policy :
      List String → NibStore Blob × Reply → NibStore Blob → NibStore Blob × Reply
  check_policy [] outcome s = outcome
  check_policy (f ∷ fs) outcome s = (s, result (refused (missing_fields (f ∷ fs))))

  unfoldable pub distribute_policy : Policy → ℕ → NibStore Blob → NibStore Blob × Reply
  distribute_policy r now s =
      check_policy (required_of_policy r)
        (insert_policy (record r { distributed_at = coalesce r.distributed_at (some now) }) s) s
