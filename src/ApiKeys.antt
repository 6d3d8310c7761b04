-- ===== src/ApiKeys.antt =====
-- internal/apikeys: the status of an API key, as the cache holds it.
pub mod Lookup
use politburo.Prelude.{Bool}

pub record StatusCache : Type 0 where
  pub active : Bool
  pub found : Bool
