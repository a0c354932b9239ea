-- ===== src/Handler/BadRequest.antt =====
-- internal/handler/errors.go: the answer to a request that cannot be decoded.
use Prim.Native.String.{◌++◌}
use soa_hw.Base.{ℕ, String, Option, none, some, List, [], ◌∷◌}
use soa_hw.ApiErr.{Code, validation_error}

-- Of json.UnmarshalTypeError: its type is printed.
pub record TypeError : Type 0 where
  pub field : String
  pub type : String
  pub value : String

-- An error of the generated server: the type error in it, if there is one, and its text.
pub record RequestError : Type 0 where
  pub type_error : Option TypeError
  pub text : String

pub record BadField : Type 0 where
  pub field : String
  pub message : String

-- api.ErrorResponse with the details `fields` and `error`
pub record BadRequest : Type 0 where
  pub status : ℕ
  pub error_code : Code
  pub fields : List BadField
  pub error : String

abbrev pub bad_fields : Option TypeError → List BadField
bad_fields none = []
bad_fields (some t) =
    record { field = t.field; message = "expected " ++ (t.type ++ (", got " ++ t.value)) } ∷ []

-- `RequestErrorHandler`
unfoldable pub request_error_handler : RequestError → BadRequest
request_error_handler e = record {
  status = 400;
  error_code = validation_error;
  fields = bad_fields e.type_error;
  error = e.text;
}
