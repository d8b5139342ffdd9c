-- ===== src/Config/Approval/Sharing.antt =====
-- pdsno/config/approval_engine.py: what one engine sees of the requests that another engine wrote
-- to the same store.
use partially_distributed_sm.Common.{
  Bool, Option, String, [], ap, false, lookup, nat_eq, non_empty, none, refl, some, string_eq, sym,
  true, ℕ, ◌∙◌, ◌≡◌,
}
use partially_distributed_sm.Platform.{Platform, ReadsBack}
use partially_distributed_sm.Config.Approval.Request.{
  ApprovalRequest, WritesText, from_dict-to_dict_request, pending_approval, rejected,
}
use partially_distributed_sm.Config.Approval.Engine.{
  ConfigData, Engine, approve_found, approve_request, cache, can_approve, config_of, get_request,
  is_draft, is_expired, is_low, is_pending, load_request_from_nib, on_found, persist_request,
  read_config, read_data, reject_found, reject_request, save, submit_found, submit_request,
  with_request, write_request,
}
use partially_distributed_sm.Nib.Store.{NibStore}
use partially_distributed_sm.Nib.Configs.{get_config, required}
use partially_distributed_sm.Nib.Configs.Writes.{get-create_new, get-update_data}
use mathlib.Core.Option
use mathlib.Core.Path.{subst}
use partially_distributed_sm.Nib.Models.{Config}

module _ (p : Platform) where
  -- Reading depends on the data of the config alone.
  read_config-data :
      (a b : Option (Config ConfigData))
      → Option.map (λ c. c.config_data) a ≡ Option.map (λ c. c.config_data) b
      → read_config p a ≡ read_config p b
  read_config-data none none h = refl
  read_config-data none (some b) h = cc
  read_config-data (some a) none h = cc
  read_config-data (some a) (some b) h = ap (read_data p) (Option.some-injective _ _ h)

  pub read-write_existing :
      (r : ApprovalRequest) (now : ℕ) (nib : NibStore ConfigData) {c : Config ConfigData}
      (j : String)
      → get_config r.request_id nib ≡ some c
      → read_config p (get_config j (write_request p r now nib)) ≡ read_config p (get_config j nib)
  unfolding write_request
  read-write_existing r now nib j there =
      rw (there, write_request)
        (read_config-data _ _ (get-update_data j r.request_id _ _ _ _ none now nib))

  module _ (r : ApprovalRequest) (now : ℕ) (e : Engine) {nib : NibStore ConfigData}
      (has_nib : e.nib_store ≡ some nib) where
    pub load_of : (j : String) → load_request_from_nib p j e ≡ read_config p (get_config j nib)
    unfolding load_request_from_nib
    load_of j = rw has_nib refl

    pub load-persist :
        (j : String)
        → load_request_from_nib p j (persist_request p r now e)
          ≡ read_config p (get_config j (write_request p r now nib))
    unfolding load_request_from_nib persist_request
    load-persist j = rw has_nib refl

    -- The store's copy of a request is never brought up to date: where the store has a config for
    -- the request, writing the request again leaves what any engine loads as it was.
    pub load-persist_existing :
        {c : Config ConfigData} (j : String)
        → get_config r.request_id nib ≡ some c
        → load_request_from_nib p j (persist_request p r now e) ≡ load_request_from_nib p j e
    load-persist_existing j there =
        load-persist j ∙ read-write_existing r now nib j there ∙ sym (load_of j)

  -- What `get_request` finds: the cached request, or else what the store holds.
  pub get_request-cached :
      (id : String) (e : Engine) {r : ApprovalRequest}
      → lookup id e.requests ≡ some r
      → get_request p id e ≡ (e, some r)
  unfolding get_request
  get_request-cached id e h = rw (h, get_request) refl

  pub get_request-loaded :
      (id : String) (e : Engine) {r : ApprovalRequest}
      → lookup id e.requests ≡ none
      → load_request_from_nib p id e ≡ some r
      → get_request p id e ≡ (cache id r e, some r)
  unfolding get_request
  get_request-loaded id e h l = rw (h, get_request, l) refl

  submit_sensitive :
      (id : String) (r : ApprovalRequest) (now : ℕ → ℕ) (e : Engine)
      → lookup id e.requests ≡ some r
      → is_draft r.state ≡ true
      → is_low r.sensitivity ≡ false
      → submit_request p id now e ≡ (
        save p id (record r { state = pending_approval; submitted_at = some (now 0) }) (now 1) e,
        true,
      )
  unfolding submit_request submit_found
  submit_sensitive id r now e cached drafted sensitive =
      rw (cached, submit_request) (rw drafted (rw sensitive refl))

  pub nib_store-save :
      (id : String) (r : ApprovalRequest) (now : ℕ) (e : Engine) {nib : NibStore ConfigData}
      → e.nib_store ≡ some nib
      → (save p id r now e).nib_store ≡ some (write_request p r now nib)
  unfolding persist_request
  nib_store-save id r now e h = rw (h, persist_request) refl

  pub with_request-loaded :
      (id : String) (body : ApprovalRequest → Engine → Engine × Bool) (e : Engine)
      {r : ApprovalRequest}
      → lookup id e.requests ≡ none
      → load_request_from_nib p id e ≡ some r
      → with_request p id body e ≡ body r (cache id r e)
  with_request-loaded id body e empty loaded =
      ap (on_found body) (get_request-loaded id e empty loaded)

  pub with_request-cached :
      (id : String) (body : ApprovalRequest → Engine → Engine × Bool) (e : Engine)
      {r : ApprovalRequest}
      → lookup id e.requests ≡ some r
      → with_request p id body e ≡ body r e
  with_request-cached id body e cached = ap (on_found body) (get_request-cached id e cached)

  reject_loaded :
      (id rejector reason : String) (now : ℕ → ℕ) (r : ApprovalRequest) (e : Engine)
      → lookup id e.requests ≡ none
      → load_request_from_nib p id e ≡ some r
      → is_pending r.state ≡ true
      → can_approve r rejector ≡ true
      → reject_request p id rejector reason now e ≡ (
        save p id
            (record r {
              state = rejected;
              rejector = some rejector;
              rejection_reason = some reason;
            })
            (now 0)
            (cache id r e),
        true,
      )
  unfolding reject_request reject_found
  reject_loaded id rejector reason now r e empty loaded pending authority =
      with_request-loaded id (reject_found p id rejector reason now) e empty loaded
      ∙ rw pending (rw authority refl)

  approve_loaded :
      (id approver : String) (now : ℕ → ℕ) (r : ApprovalRequest) (e : Engine)
      → lookup id e.requests ≡ none
      → load_request_from_nib p id e ≡ some r
      → is_pending r.state ≡ true
      → can_approve r approver ≡ true
      → is_expired r e.approval_timeout (now 0) ≡ false
      → (approve_request p id approver now e).1 ≡ true
  unfolding approve_request approve_found
  approve_loaded id approver now r e empty loaded pending authority in_time =
      ap (λ (x : Engine × Bool). x.1)
        (with_request-loaded id (approve_found p id approver now) e empty loaded)
      ∙ rw pending (rw authority (rw in_time refl))

  -- A rejection does not bind the engines of other controllers: after one engine has loaded a
  -- pending request from the store and rejected it, any other engine on that store that has not
  -- cached the request lets a controller with authority approve it until it expires.
  pub rejected_then_approved :
      (id rejector reason approver : String) (now later : ℕ → ℕ) (r : ApprovalRequest)
      (rc gc : Engine) {nib : NibStore ConfigData} {c : Config ConfigData}
      → rc.nib_store ≡ some nib
      → get_config id nib ≡ some c
      → read_config p (some c) ≡ some r
      → r.request_id ≡ id
      → lookup id rc.requests ≡ none
      → lookup id gc.requests ≡ none
      → is_pending r.state ≡ true
      → can_approve r rejector ≡ true
      → can_approve r approver ≡ true
      → is_expired r gc.approval_timeout (later 0) ≡ false
      → let (rc', was_rejected) = reject_request p id rejector reason now rc in
        (was_rejected ≡ true)
        × ((approve_request p id approver later (record gc { nib_store = rc'.nib_store })).1 ≡ true)
  rejected_then_approved id rejector reason approver now later r rc gc {nib} {c} has_nib there reads
        same rc_empty gc_empty pending may_reject may_pass in_time =
      let r' : ApprovalRequest = record r {
        state = rejected;
        rejector = some rejector;
        rejection_reason = some reason;
      } in
      let there' : get_config r'.request_id nib ≡ some c = rw same there in
      let kept : load_request_from_nib p id
            (persist_request p r' (now 0) (cache id r' (cache id r rc)))
          ≡ some r =
        load-persist_existing r' (now 0) (cache id r' (cache id r rc)) has_nib id there'
        ∙ load_of r' (now 0) (cache id r' (cache id r rc)) has_nib id
        ∙ rw there reads in
      let loaded : load_request_from_nib p id rc ≡ some r =
        load_of r (now 0) rc has_nib id ∙ rw there reads in
      let gc' : Engine = record gc {
        nib_store = (persist_request p r' (now 0) (cache id r' (cache id r rc))).nib_store;
      } in
      let final : load_request_from_nib p id gc' ≡ some r = unfold load_request_from_nib in kept in
      rw (reject_loaded id rejector reason now r rc rc_empty loaded pending may_reject)
        (refl, approve_loaded id approver later r gc' gc_empty final pending may_pass in_time)

module _ (p : Platform) (reads_back : ReadsBack p) (writes_text : WritesText p) where
  config_of_complete :
      (r : ApprovalRequest)
      → non_empty r.request_id ≡ true
      → non_empty r.device_id ≡ true
      → non_empty r.requester_id ≡ true
      → required (config_of p r) ≡ []
  unfolding required config_of
  config_of_complete r id device requester = rw (id, device, requester) refl

  -- A request that the store does not have yet is written so that it is loaded back whole.
  read-write_new :
      (r : ApprovalRequest) (now : ℕ) (nib : NibStore ConfigData)
      → get_config r.request_id nib ≡ none
      → non_empty r.request_id ≡ true
      → non_empty r.device_id ≡ true
      → non_empty r.requester_id ≡ true
      → read_config p (get_config r.request_id (write_request p r now nib)) ≡ some r
  unfolding write_request config_of
  read-write_new r now nib absent id device requester =
      rw
        (
          absent,
          write_request,
          get-create_new (config_of p r) now nib (config_of_complete r id device requester) absent,
        )
        (from_dict-to_dict_request p reads_back writes_text r)

  -- What submission leaves for the other controllers, where timestamps are read back from their
  -- texts, which are not empty: once the local engine has submitted a
  -- draft of medium or high sensitivity, with an id, a device and a requester, that the store did not
  -- have, any engine on that store without a request of that id finds it, as it was created, pending and with its time of submission.
  pub submit-get_request :
      (id : String) (r : ApprovalRequest) (now : ℕ → ℕ) (lc rc : Engine) {nib : NibStore ConfigData}
      → lc.nib_store ≡ some nib
      → lookup id lc.requests ≡ some r
      → r.request_id ≡ id
      → is_draft r.state ≡ true
      → is_low r.sensitivity ≡ false
      → get_config id nib ≡ none
      → non_empty id ≡ true
      → non_empty r.device_id ≡ true
      → non_empty r.requester_id ≡ true
      → lookup id rc.requests ≡ none
      → let (lc', done) = submit_request p id now lc in
        (done ≡ true)
        × ((get_request p id (record rc { nib_store = lc'.nib_store })).1
            ≡ some (record r { state = pending_approval; submitted_at = some (now 0) }))
  submit-get_request id r now lc rc {nib} has_nib cached same drafted sensitive absent named device
        requester empty =
      let r' : ApprovalRequest = record r {
        state = pending_approval;
        submitted_at = some (now 0);
      } in
      let written : read_config p (get_config id (write_request p r' (now 1) nib)) ≡ some r' =
        subst (λ k. read_config p (get_config k (write_request p r' (now 1) nib)) ≡ some r') same
          (read-write_new r' (now 1) nib (rw same absent) (rw same named) device requester) in
      let rc' : Engine = record rc { nib_store = some (write_request p r' (now 1) nib) } in
      let loaded : load_request_from_nib p id rc' ≡ some r' =
        unfold load_request_from_nib in written in
      rw
        (
          submit_sensitive p id r now lc cached drafted sensitive,
          nib_store-save p id r' (now 1) lc has_nib,
        )
        (
          refl,
          ap (λ (x : Engine × Option ApprovalRequest). x.1)
              (get_request-loaded p id rc' {r = r'} empty loaded),
        )
