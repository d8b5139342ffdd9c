-- ===== src/Nib/Events.antt =====
-- pdsno/datastore/sqlite_store.py: the event log.
pub mod Log
mod Tests
use partially_distributed_sm.Common.{
  Bool, List, String, [], append_text, find_row, if◌then◌else◌, nat_eq, non_empty, none, some,
  string_eq, ℕ, ◌++◌, ◌==◌, ◌∷◌,
}
use partially_distributed_sm.Platform.{Platform}
use partially_distributed_sm.Nib.Models.{
  Event, Reply, integrity_error, missing, missing_fields, refused, result, succeeded,
}
use partially_distributed_sm.Nib.Store.{NibStore}

abbrev pub has_event_id : String → Event → Bool
has_event_id id e = e.event_id == id

unfoldable pub required_of_event : Event → List String
required_of_event e = missing (
    ("event_type", non_empty e.event_type)
    ∷ ("actor", non_empty e.actor)
    ∷ ("action", non_empty e.action)
    ∷ [])

module _ (p : Platform) (secret_key : List ℕ) where
  -- What the signature of an event covers.
  unfoldable pub event_content : Event → String
  event_content e = append_text e.event_type (
      append_text e.actor
        (append_text (p.isoformat e.timestamp) (append_text e.action (p.json_text e.details))))

  -- The event as it is written: `fresh_id` is made by `uuid`.
  unfoldable pub sealed : String → Event → Event
  sealed fresh_id e = record e {
    event_id = if non_empty e.event_id then e.event_id else fresh_id;
    signature = some (p.hmac_text secret_key (event_content e));
  }

  module _ {Blob : Type 0} where
    -- The primary key refuses a second event with the id.
    abbrev pub append_event : Event → NibStore Blob → NibStore Blob × Reply
    append_event e s = elim (find_row (has_event_id e.event_id) s.events) [
      | some _ ↦ (s, integrity_error)
      | none ↦ (record s { events = s.events ++ e ∷ [] }, result (succeeded (some e.event_id)))
    ]

    abbrev pub check_event :
        List String → NibStore Blob × Reply → NibStore Blob → NibStore Blob × Reply
    check_event [] outcome s = outcome
    check_event (f ∷ fs) outcome s = (s, result (refused (missing_fields (f ∷ fs))))

    unfoldable pub write_event : Event → String → NibStore Blob → NibStore Blob × Reply
    write_event e fresh_id s =
        check_event (required_of_event e) (append_event (sealed fresh_id e) s) s
