-- ===== src/Error/Laws.antt =====
-- Which HTTP statuses the errors have, and the shape of the response.
use f1r3fly_rgb_lightning_no.Common.{ℕ, ◌≡◌, refl, ◌⊎◌, Bytes, [], ◌∷◌, IsFree, arith}
use f1r3fly_rgb_lightning_no.Error.Types.{ApiError, BitcoinNetwork}
use f1r3fly_rgb_lightning_no.Error.Status.{
  status, bad_request, unauthorized, forbidden, internal_server_error, service_unavailable,
}
use f1r3fly_rgb_lightning_no.Error.RgbLib.{RgbLibError, from_rgb_lib}
use f1r3fly_rgb_lightning_no.Error.Display.{to_string}
use f1r3fly_rgb_lightning_no.Error.Response.{into_response, replace_newlines}

-- The statuses of the node's own errors, without `401`.
abbrev pub IsRefusal : ℕ → Type 0
IsRefusal n =
    (n ≡ bad_request)
    ⊎ ((n ≡ forbidden) ⊎ ((n ≡ internal_server_error) ⊎ (n ≡ service_unavailable)))

-- What an error's status says of it.
abbrev pub Classified : ApiError → ℕ → Type 0
Classified ApiError.wrong_password n = n ≡ unauthorized
Classified (ApiError.json_extractor_rejection j) n = n ≡ j.status
Classified _ n = IsRefusal n

-- Every error but a rejected body has one of the statuses 400, 401, 403, 500 and 503; it is 401
-- exactly for a wrong password, and a rejected body keeps the status of its rejection.
pub status-Classified : (e : ApiError) → Classified e (status e)
unfolding status
status-Classified ApiError.wrong_password = refl
status-Classified (ApiError.json_extractor_rejection j) = refl
status-Classified _ = omega arith

-- No error of the RGB library is reported as a wrong password.
pub from_rgb_lib-IsRefusal : (e : RgbLibError) → IsRefusal (status (from_rgb_lib e))
unfolding status from_rgb_lib
from_rgb_lib-IsRefusal RgbLibError.asset_not_found = omega arith
from_rgb_lib-IsRefusal _ = omega arith

replace_newlines-IsFree : (t : Bytes) → IsFree 10 (replace_newlines t)
unfolding replace_newlines
replace_newlines-IsFree [] = tt
replace_newlines-IsFree (c ∷ t) = (ground arith, replace_newlines-IsFree t)

-- The body of an error's response repeats the response's status, and its message is one line.
pub into_response_one_line :
    (show_network : BitcoinNetwork → Bytes) (e : ApiError)
    → let r = into_response show_network e in (r.body.code ≡ r.status) × IsFree 10 r.body.error
unfolding into_response
into_response_one_line show_network e = (refl, replace_newlines-IsFree (to_string show_network e))
