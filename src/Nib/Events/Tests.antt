-- ===== src/Nib/Events/Tests.antt =====
-- pdsno/datastore/sqlite_store.py: the event log at concrete inputs.
use partially_distributed_sm.Common.{
  All, Distinct, List, [], nat_eq, none, refl, string_eq, ◌++◌, ◌∷◌, ◌≡◌,
}
use partially_distributed_sm.Fixtures.{platform, secret}
use partially_distributed_sm.Nib.Models.{Event}
use partially_distributed_sm.Nib.Store.{NibStore, empty_store}
use partially_distributed_sm.Nib.Events.{event_content, required_of_event, sealed, write_event}
use partially_distributed_sm.Nib.Events.Log.{
  IsSealed, Logged, entered_all, event_ids, write_events, write_events-IsSealed,
}

abbrev event : Event
event = record {
  event_id = "e1";
  event_type = "EXECUTION";
  actor = "lc";
  timestamp = 3;
  action = "Applied";
  subject = none;
  decision = none;
  payload_ref = none;
  notes = none;
  signature = none;
  details = [];
}

-- The second has no id, the third the id of the first.
abbrev calls : List Logged
calls =
    record { event = event; fresh_id = "" }
    ∷ record { event = record event { event_id = "" }; fresh_id = "e2" }
    ∷ record { event = event; fresh_id = "e3" }
    ∷ []

abbrev store : NibStore Unit
store = empty_store

two_logged : event_ids (write_events platform secret calls store).events ≡ "e1" ∷ "e2" ∷ []
unfolding write_events write_event required_of_event sealed event_content
two_logged = refl

write_events-IsSealed_example :
    (new : List Event) × ((write_events platform secret calls store).events ≡ [] ++ new)
    × All (IsSealed platform secret) new
    × Distinct (event_ids (write_events platform secret calls store).events)
    × ((write_events platform secret calls store).events ≡ entered_all platform secret calls [])
write_events-IsSealed_example = write_events-IsSealed platform secret calls store tt
