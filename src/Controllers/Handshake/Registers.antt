-- ===== src/Controllers/Handshake/Registers.antt =====
-- pdsno/controllers/global_controller.py: the registration of an identity on an event log that has
-- no event of the same id.
use partially_distributed_sm.Common.{
  List, String, [], find_row, nat_eq, non_empty, none, refl, some, string_eq, true, ℕ, ◌≡◌,
}
use partially_distributed_sm.Platform.{Platform}
use partially_distributed_sm.Controllers.Registration.{certificate_of, validated_event}
use partially_distributed_sm.Controllers.Global.{
  GlobalController, delegation_of, grant, granted_identity, register,
}
use partially_distributed_sm.Nib.Models.{
  Controller, Event, NibResult, Reply, integrity_error, result, succeeded,
}
use partially_distributed_sm.Nib.Store.{NibStore}
use partially_distributed_sm.Nib.Events.{
  append_event, has_event_id, required_of_event, sealed, write_event,
}
use partially_distributed_sm.Nib.Controllers.{get_controller, upsert_controller}
use partially_distributed_sm.Config.Approval.Engine.{ConfigData}

module _ (p : Platform) (event_key secret_key : List ℕ) (event_id : String) where
  append-fresh :
      (e : Event) (s : NibStore ConfigData)
      → find_row (has_event_id e.event_id) s.events ≡ none
      → (append_event p event_key e s).1 ≡ result (succeeded (some e.event_id))
  append-fresh e s fresh = simp (fresh, append_event)

  sealed-id :
      (e : Event) → non_empty e.event_id ≡ true → (sealed p event_key "" e).event_id ≡ e.event_id
  unfolding sealed
  sealed-id e named = rw named refl

  written :
      (e : Event) (s : NibStore ConfigData)
      → required_of_event e ≡ []
      → non_empty e.event_id ≡ true
      → find_row (has_event_id e.event_id) s.events ≡ none
      → (write_event p event_key e "" s).1
        ≡ result (succeeded (some (sealed p event_key "" e).event_id))
  unfolding write_event
  written e s whole named fresh =
      rw whole (append-fresh (sealed p event_key "" e) s (rw (sealed-id e named) fresh))

  grant-result :
      (w : NibStore ConfigData × Reply) (r : NibResult) (id role region key : String) (t : ℕ)
      (g₂ : GlobalController)
      → w.1 ≡ result r
      → (grant p event_key secret_key w id role region key t g₂).1
        ≡ granted_identity id
            (certificate_of p id role region key g₂.controller_id t)
            (delegation_of role region)
            role
            region
  grant-result (nib, result r') r id role region key t g₂ h = refl
  grant-result (nib, integrity_error) r id role region key t g₂ h = cc

  pub upsert-new :
      (c : Controller) (t : ℕ) (s : NibStore ConfigData)
      → get_controller c.controller_id s ≡ none
      → ((upsert_controller c t s).1.success ≡ true)
        × ((upsert_controller c t s).0.events ≡ s.events)
  unfolding upsert_controller
  upsert-new c t s absent = rw (absent, upsert_controller) (refl, refl)

  required-present :
      (actor id role region : String) (t : ℕ)
      → non_empty actor ≡ true
      → required_of_event
          (validated_event p event_id "Assigned controller identity" actor id role region t)
        ≡ []
  unfolding required_of_event
  required-present actor id role region t h = rw h refl

  pub register-granted :
      (w : NibStore ConfigData × NibResult) (id role region key : String) (t : ℕ)
      (g₂ : GlobalController)
      → w.1.success ≡ true
      → find_row (has_event_id event_id) w.0.events ≡ none
      → non_empty event_id ≡ true
      → non_empty g₂.controller_id ≡ true
      → (register p event_key secret_key w event_id id role region key t g₂).1
        ≡ granted_identity id
            (certificate_of p id role region key g₂.controller_id t)
            (delegation_of role region)
            role
            region
  register-granted (nib, r) id role region key t g₂ done fresh named actor =
      let e =
        validated_event p event_id "Assigned controller identity" g₂.controller_id id role region
          t in
      rw done (
        grant-result (write_event p event_key e "" nib)
          (succeeded (some (sealed p event_key "" e).event_id)) id role region key t g₂
          (written e nib (required-present g₂.controller_id id role region t actor) named fresh))
