-- ===== src/Controllers/Secrets.antt =====
-- pdsno/controllers: the secret under which execution tokens are signed, the same for the controllers
-- of a region. `digest` is SHA-256, `variable` is `PDSNO_EXECUTION_TOKEN_SECRET`.
use partially_distributed_sm.Common.{
  List, Option, String, append_text, if◌then◌else◌, non_empty, none, some, ℕ,
}

-- `_load_execution_shared_secret` and `_execution_token_secret_for_region`
unfoldable pub execution_secret : (String → List ℕ) → Option String → String → List ℕ
execution_secret digest none region = digest (append_text "pdsno-exec-token::" region)
execution_secret digest (some s) region =
    if non_empty s then digest s else digest (append_text "pdsno-exec-token::" region)
