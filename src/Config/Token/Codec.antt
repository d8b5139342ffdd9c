-- ===== src/Config/Token/Codec.antt =====
-- pdsno/config/execution_token.py: tokens as dictionaries, the form in which they travel between
-- controllers.
use partially_distributed_sm.Common.{lookup, nat_eq, some, string_eq, ◌≡◌}
use partially_distributed_sm.Platform.{Platform, ReadsBack}
use partially_distributed_sm.Config.Token.{ExecutionToken, from_dict, to_dict}

module _ (p : Platform) (reads_back : ReadsBack p) where
  -- Where timestamps are read back, reading a serialised token gives the token back, its signature or the lack of one included.
  pub from_dict-to_dict : (t : ExecutionToken) → from_dict p (to_dict p t) ≡ some t
  unfolding from_dict to_dict lookup
  from_dict-to_dict t = simp reads_back
