-- ===== src/Config/Token/Tests.antt =====
-- pdsno/config/execution_token.py: tokens and their manager at concrete inputs.
use partially_distributed_sm.Common.{
  Distinct, List, String, [], arith, elem, erase, false, lookup, nat_eq, none, refl, some,
  string_eq, true, ◌↔◌, ◌∷◌, ◌≡◌,
}
use partially_distributed_sm.Platform.{minutes}
use partially_distributed_sm.Fixtures.{platform, platform-HasDigits, secret}
use partially_distributed_sm.Config.Token.{
  ExecutionToken, ExecutionTokenManager, Refusal, add_nonce, cleanup_nonces, device_mismatch,
  expired, issue_token, refusal, sign_token, to_dict, verify_token, wrong_device,
}
use partially_distributed_sm.Config.Token.Verify.{
  IsAuthorised, IsBounded, verify-issue_token, verify_token-IsBounded, verify_token_iff,
}
use partially_distributed_sm.Config.Token.Replay.{
  Attempt, accepted, accepted-Distinct, replay_at_cleanup,
}

abbrev manager : ExecutionTokenManager
manager = record {
  controller_id = "rc";
  shared_secret = secret;
  used_nonces = [];
  nonce_cleanup_counter = 0;
}

-- A manager one verification before its cleanup.
abbrev worn : ExecutionTokenManager
worn = record manager { nonce_cleanup_counter = 999 }

token : ExecutionToken
token = issue_token platform manager "req" "sw" (some 1) 5 "tok" "n1"

-- A lifetime of zero minutes is the default of fifteen.
zero_lifetime :
    (issue_token platform manager "req" "sw" (some 0) 0 "tok" "n1").expires_at ≡ minutes 15
unfolding issue_token
zero_lifetime = refl

expired_token : (verify_token platform manager token none 60000009).1 ≡ some (expired 4)
unfolding verify_token refusal token issue_token sign_token to_dict lookup erase
expired_token = refl

other_device : (verify_token platform manager token (some "fw") 7).1 ≡ some (wrong_device "sw" "fw")
unfolding verify_token refusal token issue_token sign_token to_dict lookup erase device_mismatch
other_device = refl

verify_token_iff_example :
    let (m', reason) = verify_token platform manager token (some "sw") 7 in
    ((reason ≡ none) ↔ IsAuthorised platform manager token (some "sw") 7)
    × ((r : Refusal) → reason ≡ some r → m' ≡ manager)
verify_token_iff_example = verify_token_iff platform manager token (some "sw") 7

manager-IsBounded : IsBounded manager
manager-IsBounded = omega arith

verify_token-IsBounded_example : IsBounded (verify_token platform manager token (some "sw") 7).0
verify_token-IsBounded_example =
    verify_token-IsBounded platform manager token (some "sw") 7 manager-IsBounded

verify-issue_token_example :
    (verify_token platform worn
      (issue_token platform manager "req" "sw" (some 1) 5 "tok" "n1")
      (some "sw")
      60).1
    ≡ none
verify-issue_token_example =
    verify-issue_token platform manager worn "req" "sw" "tok" "n1" (some 1) 5 60 platform-HasDigits
      refl refl (omega arith)

abbrev twice : List Attempt
twice =
    record { token = token; expected_device = some "sw"; now = 6 }
    ∷ record { token = token; expected_device = some "sw"; now = 7 }
    ∷ []

-- The second attempt with the same token is refused.
accepted_once : accepted platform manager twice ≡ "n1" ∷ []
unfolding verify_token refusal token issue_token sign_token to_dict lookup erase device_mismatch
    cleanup_nonces add_nonce
accepted_once = refl

accepted-Distinct_example :
    Distinct (accepted platform manager twice)
    × ((n : String)
        → elem n manager.used_nonces ≡ true
        → elem n (accepted platform manager twice) ≡ false)
accepted-Distinct_example = accepted-Distinct platform manager twice (omega arith)

worn_accepts : (verify_token platform worn token (some "sw") 6).1 ≡ none
unfolding token
worn_accepts =
    verify-issue_token platform manager worn "req" "sw" "tok" "n1" (some 1) 5 6 platform-HasDigits
      refl refl (omega arith)

replay_at_cleanup_example :
    (verify_token platform (verify_token platform worn token (some "sw") 6).0 token (some "sw") 7).1
    ≡ none
unfolding token issue_token
replay_at_cleanup_example =
    replay_at_cleanup platform worn token (some "sw") 6 7 refl worn_accepts (omega arith)
