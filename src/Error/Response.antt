-- ===== src/Error/Response.antt =====
-- `APIError::into_response` (src/error.rs): the HTTP status and the JSON body.
use f1r3fly_rgb_lightning_no.Common.{ℕ, Bytes, map, ◌==◌, if◌then◌else◌}
use f1r3fly_rgb_lightning_no.Error.Types.{ApiError, BitcoinNetwork}
use f1r3fly_rgb_lightning_no.Error.Display.{to_string}
use f1r3fly_rgb_lightning_no.Error.Name.{name}
use f1r3fly_rgb_lightning_no.Error.Status.{status}

-- The body, `APIErrorResponse`.
pub record ApiErrorResponse : Type 0 where
  pub error : Bytes
  pub code : ℕ
  pub name : Bytes

pub record Response : Type 0 where
  pub status : ℕ
  pub body : ApiErrorResponse

-- `error.replace("\n", " ")`
unfoldable pub replace_newlines : Bytes → Bytes
replace_newlines = map (λ c. if c == 10 then 32 else c)

module _ (show_network : BitcoinNetwork → Bytes) where
  unfoldable pub into_response : ApiError → Response
  unfolding replace_newlines
  into_response e = record {
    status = status e;
    body = record {
      error = replace_newlines (to_string show_network e);
      code = status e;
      name = name e;
    };
  }
