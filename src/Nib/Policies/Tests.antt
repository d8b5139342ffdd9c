-- ===== src/Nib/Policies/Tests.antt =====
-- pdsno/datastore/sqlite_store.py: policies at concrete inputs.
use partially_distributed_sm.Common.{
  All, [], false, nat_eq, none, refl, some, string_eq, true, ◌∷◌, ◌≡◌, ◌≤◌,
}
use partially_distributed_sm.Nib.Models.{Policy}
use partially_distributed_sm.Nib.Store.{NibStore, empty_store}
use partially_distributed_sm.Nib.Policies.{get_active_policy, is_applicable}
use partially_distributed_sm.Nib.Policies.Newest.{get_active_policy_newest}

abbrev policy : Policy
policy = record {
  policy_id = "p1";
  policy_version = "1.0";
  scope = "regional";
  content = "{}";
  distributed_by = "global_cntl_1";
  is_active = true;
  target_region = some "zone-A";
  distributed_at = none;
  valid_from = none;
  valid_until = none;
  version = 1;
}

abbrev newer : Policy
newer = record policy { policy_id = "p2"; version = 2 }

-- The newest of all is not active.
abbrev store : NibStore Unit
store = record empty_store {
  policies =
      policy ∷ newer ∷ record policy { policy_id = "p3"; is_active = false; version = 3 } ∷ [];
}

gives_newer : get_active_policy "regional" (some "zone-A") store ≡ some newer
unfolding get_active_policy
gives_newer = refl

get_active_policy_newest_example :
    ((b : Policy)
      → get_active_policy "regional" (some "zone-A") store ≡ some b
      → ((P : Policy → Type 0)
          → All
              (λ (r : Policy). is_applicable "regional" (some "zone-A") r ≡ true → P r)
              store.policies
          → P b)
        × All
            (λ (r : Policy).
              is_applicable "regional" (some "zone-A") r ≡ true → r.version ≤ b.version)
            store.policies)
    × (get_active_policy "regional" (some "zone-A") store ≡ none
        → All
            (λ (r : Policy). is_applicable "regional" (some "zone-A") r ≡ true → ⊥)
            store.policies)
get_active_policy_newest_example = get_active_policy_newest "regional" (some "zone-A") store
