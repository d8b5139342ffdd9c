-- ===== src/Nib/Events/Log.antt =====
-- pdsno/datastore/sqlite_store.py: the log of events over any writes.
use mathlib.Core.List.{append-nil, append_assoc}
use partially_distributed_sm.Common.{
  All, All-append, Bool, Distinct, List, Option-cases, String, [], ap, append_text, arith, elem,
  eq_iff, false, find_row, if◌then◌else◌, inl, inr, nat_eq, non_empty, none, not, refl, some,
  string_eq, sym, true, ℕ, ◌&&◌, ◌++◌, ◌==◌, ◌||◌, ◌∙◌, ◌∷◌, ◌≡◌, ◌⊎◌,
}
use partially_distributed_sm.Platform.{Platform}
use partially_distributed_sm.Nib.Models.{Event, missing}
use partially_distributed_sm.Nib.Store.{NibStore}
use partially_distributed_sm.Nib.Events.{
  append_event, check_event, event_content, has_event_id, required_of_event, sealed, write_event,
}

-- A call of `write_event`, with the id that is made if the event has none.
pub record Logged : Type 0 where
  pub event : Event
  pub fresh_id : String

abbrev pub event_ids : List Event → List String
event_ids [] = []
event_ids (e ∷ es) = e.event_id ∷ event_ids es

event_ids-fresh :
    (id : String) (es : List Event)
    → find_row (has_event_id id) es ≡ none
    → elem id (event_ids es) ≡ false
event_ids-fresh id [] h = refl
event_ids-fresh id (e ∷ es) h = ground (arith, event_ids-fresh id es)

elem-event_ids :
    (id : String) (es : List Event) (e : Event)
    → elem id (event_ids (es ++ e ∷ [])) ≡ (elem id (event_ids es) || e.event_id == id)
elem-event_ids id [] e = ground arith
elem-event_ids id (x ∷ es) e = ground (arith, elem-event_ids id es e)

elem-found :
    (id : String) (es : List Event)
    → elem id (event_ids es) ≡ elim (find_row (has_event_id id) es) [ none ↦ false | some _ ↦ true ]
elem-found id [] = refl
elem-found id (e ∷ es) = ground (arith, elem-found id es)

Distinct-append :
    (es : List Event) (e : Event)
    → Distinct (event_ids es)
    → elem e.event_id (event_ids es) ≡ false
    → Distinct (event_ids (es ++ e ∷ []))
Distinct-append [] e d h = (refl, tt)
Distinct-append (x ∷ es) e (out, d) h = (
  ground (
    arith,
    out,
    h,
    elem-event_ids x.event_id es e,
    eq_iff x.event_id e.event_id,
    eq_iff e.event_id x.event_id,
  ),
  Distinct-append es e d (ground (arith, h)),
)

required-there :
    (a b c : Bool)
    → missing (("event_type", a) ∷ ("actor", b) ∷ ("action", c) ∷ []) ≡ []
    → (a ≡ true) × (b ≡ true) × (c ≡ true)
required-there true true true h = (refl, refl, refl)
required-there true true false h = cc
required-there true false c h = cc
required-there false b c h = cc

module _ (p : Platform) (secret_key : List ℕ) where
  -- The event is signed over its type, its actor, its time, its action and its details, one after the
  -- other, and has a type, an actor and an action.
  abbrev pub IsSealed : Event → Type 0
  IsSealed e =
      (e.signature
        ≡ some (
            p.hmac_text secret_key (
              append_text e.event_type (
                append_text e.actor (
                  append_text (p.isoformat e.timestamp)
                    (append_text e.action (p.json_text e.details)))))))
      × (non_empty e.event_type ≡ true)
      × (non_empty e.actor ≡ true)
      × (non_empty e.action ≡ true)

  -- The specification of a write: an event that has a type, an actor and an action is added, signed and
  -- under its own id or else the made one, unless the log has an event with that id.
  unfoldable pub entered : Logged → List Event → List Event
  entered l log =
      let e = l.event in
      let id = if non_empty e.event_id then e.event_id else l.fresh_id in
      if non_empty e.event_type
        && non_empty e.actor
        && non_empty e.action
        && not (elem id (event_ids log))
      then log
        ++ record e {
          event_id = id;
          signature = some (
              p.hmac_text secret_key (
                append_text e.event_type (
                  append_text e.actor (
                    append_text (p.isoformat e.timestamp)
                      (append_text e.action (p.json_text e.details))))));
        }
          ∷ []
      else log

  unfoldable pub entered_all : List Logged → List Event → List Event
  entered_all [] log = log
  entered_all (l ∷ ls) log = entered_all ls (entered l log)

  sealed-IsSealed :
      (e : Event) (fresh_id : String)
      → required_of_event e ≡ []
      → IsSealed (sealed p secret_key fresh_id e)
  unfolding sealed event_content required_of_event
  sealed-IsSealed e fresh_id h =
      let (has_type, has_actor, has_action) = required-there _ _ _ h in
      (refl, has_type, has_actor, has_action)

  module _ {Blob : Type 0} where
    unfoldable pub write_events : List Logged → NibStore Blob → NibStore Blob
    write_events [] s = s
    write_events (l ∷ ls) s = write_events ls (write_event p secret_key l.event l.fresh_id s).0

    -- The log after a write: what it was, and at most one event more, sealed and with a new id.
    abbrev Grows : NibStore Blob → NibStore Blob → Type 0
    Grows s s' =
        (s' ≡ s)
        ⊎ ((e : Event) × (s'.events ≡ s.events ++ e ∷ [])
            × IsSealed e
            × (find_row (has_event_id e.event_id) s.events ≡ none))

    append-Grows :
        (e : Event) (s : NibStore Blob) → IsSealed e → Grows s (append_event p secret_key e s).0
    append-Grows e s h = elim (Option-cases (find_row (has_event_id e.event_id) s.events)) [
      | inl fresh ↦ simp (fresh, append_event) (inr (e, refl, h, fresh))
      | inr (other, taken) ↦ simp (taken, append_event) (inl refl)
    ]

    check-Grows :
        (fs : List String) (e : Event) (fresh_id : String) (s : NibStore Blob)
        → required_of_event e ≡ fs
        → Grows s
            (check_event p secret_key fs
              (append_event p secret_key (sealed p secret_key fresh_id e) s)
              s).0
    check-Grows [] e fresh_id s h =
        append-Grows (sealed p secret_key fresh_id e) s (sealed-IsSealed e fresh_id h)
    check-Grows (f ∷ fs) e fresh_id s h = inl refl

    write_event-Grows :
        (e : Event) (fresh_id : String) (s : NibStore Blob)
        → Grows s (write_event p secret_key e fresh_id s).0
    unfolding write_event
    write_event-Grows e fresh_id s = check-Grows (required_of_event e) e fresh_id s refl

    check-enters :
        (a b c : Bool) (e : Event) (s : NibStore Blob)
        → (check_event p secret_key
            (missing (("event_type", a) ∷ ("actor", b) ∷ ("action", c) ∷ []))
            (append_event p secret_key e s)
            s).0.events
          ≡ (if a && b && c && not (elem e.event_id (event_ids s.events))
              then s.events ++ e ∷ []
              else s.events)
    check-enters true true true e s =
        elim (Option-cases (find_row (has_event_id e.event_id) s.events)) [
          | inl fresh ↦ rw (elem-found e.event_id s.events, fresh, append_event) refl
          | inr (other, taken) ↦ rw (elem-found e.event_id s.events, taken, append_event) refl
        ]
    check-enters true true false e s = refl
    check-enters true false c e s = refl
    check-enters false b c e s = refl

    write_event-enters :
        (l : Logged) (s : NibStore Blob)
        → (write_event p secret_key l.event l.fresh_id s).0.events ≡ entered l s.events
    unfolding write_event required_of_event entered sealed event_content
    write_event-enters l s =
        check-enters (non_empty l.event.event_type) (non_empty l.event.actor)
          (non_empty l.event.action) (sealed p secret_key l.fresh_id l.event) s

    write_events-enters :
        (ls : List Logged) (s : NibStore Blob)
        → (write_events ls s).events ≡ entered_all ls s.events
    unfolding write_events entered_all
    write_events-enters [] s = refl
    write_events-enters (l ∷ ls) s =
        write_events-enters ls (write_event p secret_key l.event l.fresh_id s).0
        ∙ ap (entered_all ls) (write_event-enters l s)

    one_more :
        (s s' : NibStore Blob)
        → Grows s s'
        → Distinct (event_ids s.events)
        → (new : List Event) × (s'.events ≡ s.events ++ new)
          × All IsSealed new
          × Distinct (event_ids s'.events)
    one_more s s' (inl same) d = ([], rw same (sym (append-nil s.events)), tt, rw same d)
    one_more s s' (inr (e, grown, sealed_e, fresh)) d = (
      e ∷ [],
      grown,
      (sealed_e, tt),
      rw grown (Distinct-append s.events e d (event_ids-fresh e.event_id s.events fresh)),
    )

    added :
        (ls : List Logged) (s : NibStore Blob)
        → Distinct (event_ids s.events)
        → (new : List Event) × ((write_events ls s).events ≡ s.events ++ new)
          × All IsSealed new
          × Distinct (event_ids (write_events ls s).events)
    unfolding write_events
    added [] s d = ([], sym (append-nil s.events), tt, d)
    added (l ∷ ls) s d =
        let s' = (write_event p secret_key l.event l.fresh_id s).0 in
        let (first, e, h, d') = one_more s s' (write_event-Grows l.event l.fresh_id s) d in
        let (rest, e', h', d'') = added ls s' d' in
        (
          first ++ rest,
          e' ∙ ap (λ (es : List Event). es ++ rest) e ∙ append_assoc s.events first rest,
          All-append IsSealed first rest h h',
          d'',
        )

    -- Where no two events of the log have the same id, the log only grows, whatever events are
    -- written: those that it had stay as they are and in their order, no two have the same id
    -- afterwards, and every event that is added has a type, an actor and an action and is signed over
    -- these, its time and its details. The log is that of the specification, to which each write adds
    -- its event, under its own id or else a made one, exactly when it has a type, an actor and an
    -- action and the id is not in the log yet.
    pub write_events-IsSealed :
        (ls : List Logged) (s : NibStore Blob)
        → Distinct (event_ids s.events)
        → (new : List Event) × ((write_events ls s).events ≡ s.events ++ new)
          × All IsSealed new
          × Distinct (event_ids (write_events ls s).events)
          × ((write_events ls s).events ≡ entered_all ls s.events)
    write_events-IsSealed ls s d =
        let (new, grown, all_sealed, distinct) = added ls s d in
        (new, grown, all_sealed, distinct, write_events-enters ls s)
