-- ===== src/Nib/Configs/Writes.antt =====
-- pdsno/datastore/sqlite_store.py: the two writes of configs, on every branch.
use partially_distributed_sm.Common.{
  Bool, Bool-cases, List, Option, Option-cases, String, [], ap, arith, coalesce, eq_iff, false,
  find_row, if◌then◌else◌, inl, inr, nat_eq, none, not, refl, row_count, some, string_eq, sym, true,
  ℕ, ◌&&◌, ◌+◌, ◌==◌, ◌∙◌, ◌∷◌, ◌≡◌, ◌⊎◌,
}
use partially_distributed_sm.Nib.Models.{Config, ConfigStatus, conflicting}
use partially_distributed_sm.Nib.Store.{NibStore}
use partially_distributed_sm.Nib.Configs.{
  check_required, create_config_proposal, get_config, has_id, has_version, insert_proposal,
  is_approved, is_executed, proposal_row, required, set_status, update_config_status,
}
use partially_distributed_sm.Nib.Configs.Versions.{
  HasKeys, HasKeys-append, HasKeys-update, find-append, find-update, hit, revise, row_count-hit,
  set_status-id,
}
use mathlib.Core.Option

abbrev pub is_nil : List String → Bool
is_nil [] = true
is_nil (f ∷ fs) = false

module _ {Blob : Type 0} where
  -- Where config ids are unique, an update goes through exactly when the row with that id has the version that the caller
  -- passes. It then changes that row alone: the status is the new one, the approver, the token and
  -- the expiry are those passed, or the old ones where none is passed, the time of approval or of
  -- execution is the clock's if the new status is that, and the version is one greater. Otherwise
  -- it reports a conflict and changes nothing. Ids stay unique.
  pub update_config_status_outcome :
      (id : String) (status : ConfigStatus) (version : ℕ) (approver token : Option String)
      (expiry : Option ℕ) (now : ℕ) (s : NibStore Blob)
      → HasKeys s.configs
      → let (s', r) = update_config_status id status version approver token expiry now s in
        let matched = hit id version s.configs in
        (r.success ≡ matched)
        × (r.conflict ≡ not matched)
        × HasKeys s'.configs
        × (matched ≡ false → s' ≡ s)
        × (matched ≡ true
            → (j : String)
            → get_config j s'
              ≡ Option.map
                  (λ (c : Config Blob).
                    if c.config_id == id && c.version == version
                    then record c {
                      status = status;
                      approved_by = coalesce approver c.approved_by;
                      execution_token = coalesce token c.execution_token;
                      approved_at = if is_approved status then some now else c.approved_at;
                      executed_at = if is_executed status then some now else c.executed_at;
                      expiry = coalesce expiry c.expiry;
                      version = c.version + 1;
                    }
                    else c)
                  (get_config j s))
  unfolding update_config_status get_config set_status
  update_config_status_outcome id status version approver token expiry now s has_keys =
      let count = row_count-hit id version s.configs has_keys in
      let same = set_status-id status approver token expiry now in
      elim (Bool-cases (hit id version s.configs)) [
        | inl found ↦
            rw (count, found)
              (
                refl,
                refl,
                HasKeys-update id version (set_status status approver token expiry now) same
                    s.configs has_keys,
                λ h. cc,
                λ h j.
                    find-update id version (set_status status approver token expiry now) same j
                      s.configs,
              )
        | inr lost ↦ rw (count, lost) (refl, refl, has_keys, λ h. refl, λ h. cc)
      ]

  find-has_id :
      (id : String) (rows : List (Config Blob)) (c : Config Blob)
      → find_row (has_id id) rows ≡ some c
      → has_id id c ≡ true
  find-has_id id [] c h = cc
  find-has_id id (r ∷ rows) c h = ground (arith, find-has_id id rows c)

  hit-update :
      (id : String) (version : ℕ) (f : Config Blob → Config Blob) (rows new : List (Config Blob))
      → ((c : Config Blob) → (f c).version ≡ c.version + 1)
      → hit id version rows ≡ true
      → find_row (has_id id) new ≡ Option.map (revise id version f) (find_row (has_id id) rows)
      → hit id version new ≡ false
  hit-update id version f rows new grows found e = elim (Option-cases (find_row (has_id id) rows)) [
    | inl absent ↦ ground arith
    | inr (c, is_c) ↦ ground (arith, grows c, find-has_id id rows c is_c)
  ]

  refused_update :
      (id : String) (status : ConfigStatus) (version : ℕ) (approver token : Option String)
      (expiry : Option ℕ) (now : ℕ) (s : NibStore Blob)
      → (row_count (has_version id version) s.configs == 0) ≡ true
      → update_config_status id status version approver token expiry now s ≡ (s, conflicting)
  unfolding update_config_status
  refused_update id status version approver token expiry now s h = rw h

  -- No update is lost, where config ids are unique: of two writers that read the same version of a config, the second gets a
  -- conflict and changes nothing, whatever the two of them write.
  pub update_config_status_stale :
      (id : String) (version : ℕ) (s : NibStore Blob) (status status₂ : ConfigStatus)
      (approver token approver₂ token₂ : Option String) (expiry expiry₂ : Option ℕ) (now later : ℕ)
      → HasKeys s.configs
      → (update_config_status id status version approver token expiry now s).1.success ≡ true
      → let s' = (update_config_status id status version approver token expiry now s).0 in
        update_config_status id status₂ version approver₂ token₂ expiry₂ later s'
        ≡ (s', conflicting)
  unfolding get_config set_status
  update_config_status_stale id version s status status₂ approver token approver₂ token₂ expiry
        expiry₂ now later has_keys done =
      let first =
        update_config_status_outcome id status version approver token expiry now s has_keys in
      let s' = (update_config_status id status version approver token expiry now s).0 in
      let found : hit id version s.configs ≡ true = sym first.0 ∙ done in
      let count = row_count-hit id version s'.configs first.2 in
      let lost =
        hit-update id version (set_status status approver token expiry now) s.configs s'.configs
          (unfold set_status in λ c. refl) found (unfold get_config in first.4 found id) in
      refused_update id status₂ version approver₂ token₂ expiry₂ later s' (count ∙ ap not lost)

  abbrev pub has_row : String → NibStore Blob → Bool
  has_row id s = elim (get_config id s) [ none ↦ false | some _ ↦ true ]

  insert_outcome :
      (fs : List String) (row : Config Blob) (s : NibStore Blob)
      → HasKeys s.configs
      → let (s', r) = check_required fs (insert_proposal row s) s in
        let accepted = is_nil fs && not (has_row row.config_id s) in
        (r.success ≡ accepted)
        × HasKeys s'.configs
        × (accepted ≡ false → s' ≡ s)
        × (accepted ≡ true
            → (j : String)
            → get_config j s' ≡ (if row.config_id == j then some row else get_config j s))
  unfolding get_config
  insert_outcome (f ∷ fs) row s has_keys = (refl, has_keys, λ h. refl, λ h. cc)
  insert_outcome [] row s has_keys =
      elim (Option-cases (find_row (has_id row.config_id) s.configs)) [
        | inr (c, there) ↦ rw (there, insert_proposal, has_row) (refl, has_keys, λ h. refl, λ h. cc)
        | inl absent ↦
            rw (absent, insert_proposal, has_row)
              (
                refl,
                HasKeys-append s.configs row has_keys absent,
                λ h. cc,
                λ h j. ground (arith, find-append j s.configs row, eq_iff row.config_id j),
              )
      ]

  -- Where config ids are unique, a proposal is stored exactly when it has an id, a device and a proposer, and no config has its
  -- id. It is then found under its id, with version 0 and a proposal time, and every other config
  -- is as it was; otherwise nothing changes. Ids stay unique.
  pub create_config_proposal_outcome :
      (c : Config Blob) (now : ℕ) (s : NibStore Blob)
      → HasKeys s.configs
      → let (s', r) = create_config_proposal c now s in
        let accepted = is_nil (required c) && not (has_row c.config_id s) in
        (r.success ≡ accepted)
        × HasKeys s'.configs
        × (accepted ≡ false → s' ≡ s)
        × (accepted ≡ true
            → (j : String)
            → get_config j s'
              ≡ (if c.config_id == j then some (proposal_row c now) else get_config j s))
  unfolding create_config_proposal
  create_config_proposal_outcome c now s has_keys =
      insert_outcome (required c) (proposal_row c now) s has_keys

  revised_data :
      (o : Option (Config Blob)) (id : String) (version : ℕ) (status : ConfigStatus)
      (approver token : Option String) (expiry : Option ℕ) (now : ℕ)
      → Option.map
          (λ c. c.config_data)
          (Option.map (revise id version (set_status status approver token expiry now)) o)
        ≡ Option.map (λ c. c.config_data) o
  unfolding set_status
  revised_data none id version status approver token expiry now = refl
  revised_data (some c) id version status approver token expiry now = ground arith

  created_cases :
      (j : String) (fs : List String) (row : Config Blob) (s : NibStore Blob)
      → let s' = (check_required fs (insert_proposal row s) s).0 in
        (find_row (has_id j) s'.configs ≡ find_row (has_id j) s.configs)
        ⊎ (find_row (has_id j) s'.configs ≡ some row)
  created_cases j (f ∷ fs) row s = inl refl
  created_cases j [] row s = elim (Option-cases (find_row (has_id row.config_id) s.configs)) [
    | inr (c, there) ↦ inl (rw (there, insert_proposal) refl)
    | inl absent ↦ rw (absent, insert_proposal) (ground (arith, find-append j s.configs row))
  ]

  -- An update keeps the data of every config.
  pub get-update_data :
      (j id : String) (status : ConfigStatus) (version : ℕ) (approver token : Option String)
      (expiry : Option ℕ) (now : ℕ) (s : NibStore Blob)
      → Option.map
          (λ c. c.config_data)
          (get_config j (update_config_status id status version approver token expiry now s).0)
        ≡ Option.map (λ c. c.config_data) (get_config j s)
  unfolding update_config_status get_config
  get-update_data j id status version approver token expiry now s =
      elim (Bool-cases (row_count (has_version id version) s.configs == 0)) [
        | inl absent ↦ rw absent refl
        | inr there ↦
            rw
              (
                there,
                find-update id version (set_status status approver token expiry now)
                    (set_status-id status approver token expiry now) j s.configs,
              )
              (revised_data (find_row (has_id j) s.configs) id version status approver token expiry
                now)
      ]

  -- A proposal that does not take the place of a config is not seen under any other id.
  pub get-create_cases :
      (j : String) (c : Config Blob) (now : ℕ) (s : NibStore Blob)
      → (get_config j (create_config_proposal c now s).0 ≡ get_config j s)
        ⊎ (get_config j (create_config_proposal c now s).0 ≡ some (proposal_row c now))
  unfolding create_config_proposal get_config
  get-create_cases j c now s = created_cases j (required c) (proposal_row c now) s

  -- A complete proposal under a new id is found under that id.
  pub get-create_new :
      (c : Config Blob) (now : ℕ) (s : NibStore Blob)
      → required c ≡ []
      → get_config c.config_id s ≡ none
      → get_config c.config_id (create_config_proposal c now s).0 ≡ some (proposal_row c now)
  unfolding create_config_proposal get_config
  get-create_new c now s complete absent =
      rw (complete, absent, insert_proposal)
        (ground (
          arith,
          find-append c.config_id s.configs (proposal_row c now),
          eq_iff c.config_id c.config_id,
        ))
