-- ===== src/Api.antt =====
-- internal/transport/http/api/cachedresponse: the shape of the responses that are read off the cache.
pub mod Flights
pub mod Sessions
pub mod Health
pub mod SignedLink
use politburo.Prelude.{String, Bool, Option, List}
use politburo.Ints.{Int64}
use politburo.Upstream.{Time}

-- The fields `Current` and `Default` are of type `any`.
pub data Choice : Type 0 where
  several : List String → Choice
  one : String → Choice
  flag : Bool → Choice

pub record Filter : Type 0 where
  pub name : String
  pub type : String
  pub desc : String
  pub current : Choice
  pub default : Choice
  pub options : List String

pub record Meta : Type 0 where
  pub last_cached : Time
  pub refresh_interval_mins : Int64

pub record Pagination : Type 0 where
  pub total_length : Int64
  pub page_length : Int64
  pub page_number : Int64

-- `Data` and the `Response` around it. `A` and `H` are the types of the results and of their history.
pub record Data (A H : Type 0) : Type 0 where
  pub available_filters : List Filter
  pub result : List A
  pub history : Option (List H)
  pub meta : Meta
  pub pagination : Option Pagination
