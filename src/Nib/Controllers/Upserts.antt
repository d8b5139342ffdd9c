-- ===== src/Nib/Controllers/Upserts.antt =====
-- pdsno/datastore/sqlite_store.py: the identities of controllers, as a map from ids to rows.
use partially_distributed_sm.Common.{
  Bool-cases, List, Option, Option-cases, String, [], arith, coalesce, eq_iff, find-append_none,
  find-append_some, find-update_rows, find_row, find_row-holds, if◌then◌else◌, inl, inr, nat_eq,
  none, refl, row_count, row_count-pos, some, string_eq, sym, true, update_rows, ℕ, ◌++◌, ◌+◌, ◌==◌,
  ◌∙◌, ◌∷◌, ◌≡◌,
}
use partially_distributed_sm.Nib.Models.{Controller}
use partially_distributed_sm.Nib.Store.{NibStore}
use partially_distributed_sm.Nib.Controllers.{
  get_controller, has_controller_id, has_controller_version, renew, upsert_controller,
}

-- What the store knows of each id.
abbrev pub Registry : Type 0
Registry = String → Option Controller

-- The entry of an id after an upsert: a record whose version is that of the entry replaces it and
-- counts its version up; with another version the entry stays.
abbrev pub set_entry : Controller → ℕ → Option Controller → Option Controller
set_entry c now none = some (record c { validated_at = coalesce c.validated_at (some now) })
set_entry c now (some row) =
    some (if row.version == c.version then record c { version = c.version + 1 } else row)

renew-same :
    (c row : Controller)
    → row.controller_id ≡ c.controller_id
    → row.version ≡ c.version
    → renew c row ≡ record c { version = c.version + 1 }
unfolding renew
renew-same c row same current = rw (same, current) refl

-- The specification of one upsert: only the entry of the controller's id changes.
unfoldable pub put : Controller → ℕ → Registry → Registry
put c now m id = if c.controller_id == id then set_entry c now (m id) else m id

put-absent :
    (c : Controller) (now : ℕ) (id : String) (rows : List Controller)
    → find_row (has_controller_id c.controller_id) rows ≡ none
    → find_row
        (has_controller_id id)
        (rows ++ record c { validated_at = coalesce c.validated_at (some now) } ∷ [])
      ≡ (if c.controller_id == id
          then set_entry c now (find_row (has_controller_id id) rows)
          else find_row (has_controller_id id) rows)
put-absent c now id rows absent = elim (Option-cases (find_row (has_controller_id id) rows)) [
  | inl fresh ↦ rw fresh (find-append_none (has_controller_id id) rows _ fresh)
  | inr (r, there) ↦ elim (Bool-cases (c.controller_id == id)) [
    | inr other ↦ rw (there, other) (find-append_some (has_controller_id id) rows _ r there)
    | inl same ↦
        let wrong = rw ((eq_iff c.controller_id id).0 same) at absent in
        let both = sym there ∙ wrong in cc
  ]
]

put-kept :
    (c : Controller) (now : ℕ) (id : String) (rows : List Controller) (row : Controller)
    → find_row (has_controller_id c.controller_id) rows ≡ some row
    → (row_count (has_controller_version c.controller_id c.version) rows == 0) ≡ true
    → find_row (has_controller_id id) rows ≡ (
        if c.controller_id == id
        then set_entry c now (find_row (has_controller_id id) rows)
        else find_row (has_controller_id id) rows)
put-kept c now id rows row there idle = elim (Bool-cases (c.controller_id == id)) [
  | inr other ↦ rw other refl
  | inl same ↦ elim (Bool-cases (row.version == c.version)) [
    | inl current ↦ absurd (
        row_count-pos (has_controller_id c.controller_id)
          (has_controller_version c.controller_id c.version) rows row there
          (ground
            (arith, find_row-holds (has_controller_id c.controller_id) rows row there, current))
          (ground (arith, idle)))
    | inr stale ↦
        let here : find_row (has_controller_id id) rows ≡ some row =
          rw⁻¹ ((eq_iff c.controller_id id).0 same) there in
        rw (same, here, stale) refl
  ]
]

put-renewed :
    (c : Controller) (now : ℕ) (id : String) (rows : List Controller) (row : Controller)
    → find_row (has_controller_id c.controller_id) rows ≡ some row
    → find_row
        (has_controller_id id)
        (update_rows (has_controller_version c.controller_id c.version) (renew c) rows)
      ≡ (if c.controller_id == id
          then set_entry c now (find_row (has_controller_id id) rows)
          else find_row (has_controller_id id) rows)
put-renewed c now id rows row there =
    find-update_rows (has_controller_id id) (has_controller_version c.controller_id c.version)
      (renew c) rows (unfold renew in λ r. refl)
    ∙ elim (Option-cases (find_row (has_controller_id id) rows)) [
      | inl absent ↦ elim (Bool-cases (c.controller_id == id)) [
        | inr other ↦ rw (absent, other) refl
        | inl same ↦
            let wrong = rw ((eq_iff c.controller_id id).0 same) at there in
            let both = sym absent ∙ wrong in cc
      ]
      | inr (r, here) ↦ rw here (
          ground (
            arith,
            find_row-holds (has_controller_id id) rows r here,
            eq_iff r.controller_id id,
            eq_iff r.controller_id c.controller_id,
            eq_iff c.controller_id id,
            renew-same c r,
          ))
    ]

module _ {Blob : Type 0} where
  unfoldable pub registry : NibStore Blob → Registry
  registry s id = get_controller id s

  upsert_controller-put :
      (c : Controller) (now : ℕ) (s : NibStore Blob) (id : String)
      → registry (upsert_controller c now s).0 id ≡ put c now (registry s) id
  unfolding upsert_controller registry put get_controller
  upsert_controller-put c now s id =
      elim (Option-cases (find_row (has_controller_id c.controller_id) s.controllers)) [
        | inl absent ↦ rw (absent, upsert_controller) (put-absent c now id s.controllers absent)
        | inr (row, there) ↦
            elim (Bool-cases
              (row_count (has_controller_version c.controller_id c.version) s.controllers == 0)) [
                | inl idle ↦
                    rw (there, idle, upsert_controller)
                      (put-kept c now id s.controllers row there idle)
                | inr busy ↦
                    rw (there, busy, upsert_controller)
                      (put-renewed c now id s.controllers row there)
              ]
      ]

  -- The upserts of a sequence of controllers, each with the time of its call.
  unfoldable pub upserts : List (Controller × ℕ) → NibStore Blob → NibStore Blob
  upserts [] s = s
  upserts ((c, now) ∷ cs) s = upserts cs (upsert_controller c now s).0

-- The same upserts on the map.
unfoldable pub puts : List (Controller × ℕ) → Registry → Registry
puts [] m = m
puts ((c, now) ∷ cs) m = puts cs (put c now m)

put-cong :
    (c : Controller) (now : ℕ) (m m' : Registry)
    → ((id : String) → m id ≡ m' id)
    → (id : String) → put c now m id ≡ put c now m' id
unfolding put
put-cong c now m m' same id = rw (same id) refl

puts-cong :
    (cs : List (Controller × ℕ)) (m m' : Registry)
    → ((id : String) → m id ≡ m' id)
    → (id : String) → puts cs m id ≡ puts cs m' id
unfolding puts
puts-cong [] m m' same id = same id
puts-cong ((c, now) ∷ cs) m m' same id =
    puts-cong cs (put c now m) (put c now m') (put-cong c now m m' same) id

module _ {Blob : Type 0} where
  -- The table of controllers implements a map from ids to rows, whatever rows it starts from and
  -- whether or not their ids are unique: after any sequence of upserts, what the store finds for an id
  -- is what the map has after the same upserts. Each of these enters a new controller, with a time
  -- of validation; or, if the versions agree, puts the whole record in the place of the entry of its
  -- id, its version one greater; or changes nothing. It touches no other id.
  pub upserts-puts :
      (cs : List (Controller × ℕ)) (s : NibStore Blob) (id : String)
      → registry (upserts cs s) id ≡ puts cs (registry s) id
  unfolding upserts puts
  upserts-puts [] s id = refl
  upserts-puts ((c, now) ∷ cs) s id =
      upserts-puts cs (upsert_controller c now s).0 id
      ∙ puts-cong cs (registry (upsert_controller c now s).0) (put c now (registry s))
          (upsert_controller-put c now s) id
