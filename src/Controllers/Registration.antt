-- ===== src/Controllers/Registration.antt =====
-- pdsno/controllers: what the global and the regional controllers write when they give a controller an
-- identity. Each of them has its own copy of this code.
use partially_distributed_sm.Common.{
  Bool, Option, String, [], append_text, false, nat_eq, none, some, string_eq, ℕ, ◌==◌, ◌∷◌,
}
use partially_distributed_sm.Platform.{Platform}
use partially_distributed_sm.Controllers.Messages.{metadata_of, or_empty}
use partially_distributed_sm.Nib.Models.{Certificate, Controller, ControllerMetadata, Event}

-- `x == expected`, for a text that may be missing.
abbrev pub is_same : Option String → String → Bool
is_same none expected = false
is_same (some t) expected = t == expected

module _ (p : Platform) where
  abbrev pub identity_of : String → String → ℕ → String
  identity_of controller_type region seq =
      append_text controller_type
        (append_text "_cntl_" (append_text region (append_text "_" (p.decimal seq))))

  abbrev pub certificate_of : String → String → String → String → String → ℕ → Certificate
  certificate_of assigned_id role region public_key issuer issued_at = record {
    assigned_id = assigned_id;
    role = role;
    region = region;
    public_key = public_key;
    issued_by = issuer;
    issued_at = p.isoformat issued_at;
    signature = "hmac-placeholder";
  }

  -- The row that an identity is stored as.
  abbrev pub controller_record :
      String → String → String → String → String → Option ControllerMetadata → ℕ → Controller
  controller_record assigned_id role region public_key issuer metadata issued_at = record {
    controller_id = assigned_id;
    role = role;
    region = some region;
    status = "active";
    validated_by = some issuer;
    validated_at = some issued_at;
    public_key = some public_key;
    certificate = some (certificate_of assigned_id role region public_key issuer issued_at);
    capabilities = or_empty (metadata_of metadata).capabilities;
    metadata = metadata_of metadata;
    version = 0;
  }

  abbrev pub validated_event : String → String → String → String → String → String → ℕ → Event
  validated_event event_id action actor assigned_id role region issued_at = record {
    event_id = event_id;
    event_type = "CONTROLLER_VALIDATED";
    actor = actor;
    timestamp = issued_at;
    action = action;
    subject = some assigned_id;
    decision = some "APPROVED";
    payload_ref = none;
    notes = none;
    signature = none;
    details =
        ("assigned_id", some assigned_id)
        ∷ ("role", some role)
        ∷ ("region", some region)
        ∷ ("validated_at", some (p.isoformat issued_at))
        ∷ [];
  }
