-- ===== src/Fetch/Response.antt =====
-- main.go's `fetch`: what an answer of the HTTP client becomes.
use georoute.Base.{ℕ, List, ◌==◌, ◌++◌, take, if◌then◌else◌}
use georoute.Netip.{Bytes}
use georoute.Text.{bytes, bytes_eq, decimal}
use georoute.Errors.{
  Error, Result, ok, err, sentinel, detail, in_context, http, bad_status, ◌>>=◌, ◌>>◌,
}

-- `ripeResp`, with the lists of its `data.resources`.
pub record RipeResp : Type 0 where
  pub status : Bytes
  pub ipv4 : List Bytes
  pub ipv6 : List Bytes

-- What the program reads of an `http.Response`.
pub record Response : Type 0 where
  pub status_code : ℕ
  pub body : Bytes

abbrev pub limit_error_body : ℕ
limit_error_body = 4096

abbrev max_body_bytes : ℕ
max_body_bytes = 33554432

-- The error of a status that is not 200.
unfoldable pub http_error : Response → Error
unfolding decimal
http_error resp = detail (sentinel http) (
    bytes "status="
    ++ (decimal resp.status_code ++ (bytes " body=" ++ take limit_error_body resp.body)))

unfoldable pub check_status : RipeResp → Result RipeResp
unfolding bytes_eq
check_status parsed =
    if bytes_eq parsed.status (bytes "ok")
    then ok parsed
    else err (detail (sentinel bad_status) parsed.status)

-- The parameters are `http.NewRequestWithContext`, the client's `Do`, and the JSON decoder.
module _ (new_request : Bytes → Result (Unit {0})) (client_do : Bytes → Result Response)
    (decode : Bytes → Result RipeResp) where
  unfoldable pub check_response : Response → Result RipeResp
  check_response resp =
      if resp.status_code == 200
      then in_context (bytes "decode") (decode (take max_body_bytes resp.body)) >>= check_status
      else err (http_error resp)

  unfoldable pub fetch : Bytes → Result RipeResp
  fetch url =
      in_context (bytes "new request") (new_request url)
      >> (in_context (bytes "http do") (client_do url) >>= check_response)
