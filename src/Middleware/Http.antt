-- ===== src/Middleware/Http.antt =====
-- Requests and responses of net/http, as the program reads and writes them.
use soa_hw.Base.{ℕ, String, List}
use soa_hw.Base.Int.{ℤ}

pub record Request : Type 0 where
  pub method : String
  pub path : String
  -- The headers Authorization and Content-Type, "" if there is none.
  pub authorization : String
  pub content_type : String
  pub content_length : ℤ
  pub body : List ℕ

-- `B` is the type of what is written as a body.
pub record Response (B : Type 0) : Type 0 where
  pub status : ℕ
  pub headers : List (String × String)
  pub body : B

-- A response, and the user that `setLogUserID` left in the log context; 0 is uuid.Nil.
pub record Served (B : Type 0) : Type 0 where
  pub response : Response B
  pub log_user : ℕ
