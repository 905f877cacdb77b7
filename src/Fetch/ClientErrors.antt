-- ===== src/Fetch/ClientErrors.antt =====
-- cache.go's `isClientError`, on what main.go's `fetch` makes of an answer.
use mathlib.Core.Path.{subst}
use georoute.Base.{
  ℕ, zero, suc, ◌+◌, ◌-◌, ◌≤◌, ◌<◌, ◌≡◌, refl, sym, ◌∙◌, ap, Bool, true, false, Bool-cases, inl,
  inr, Option, none, some, [], ◌∷◌, ◌++◌, ◌==◌, append_assoc, if◌then◌else◌, take, arith, ℤ, pos,
}
use georoute.Netip.{Bytes}
use georoute.Text.{bytes, decimal, has_prefix, contains_str}
use georoute.Text.Search.{has_prefix-append, index-first}
use georoute.Errors.{Error, Result, ok, err, is, error_text, http}
use georoute.System.{World, Env}
use georoute.Fetch.{
  is_client_error, names_code, contains_bytes, exhausted, fetch_with_retry, retry_loop, before,
}
use georoute.Fetch.Contains.{contains_step, contains_bytes-contains_str}
use georoute.Fetch.Retry.{Fails, retry_step, retry_loop-after}
use georoute.Fetch.Response.{
  RipeResp, Response, http_error, fetch, check_response, limit_error_body,
}
use georoute.Fetch.Cache.{Format, fetch_with_cache}

contains-append : (pre sub post : Bytes) → contains_str (pre ++ (sub ++ post)) sub ≡ true
unfolding contains_str
contains-append [] sub post =
    ap (λ o. elim o [ none ↦ false | some _ ↦ true ])
      (index-first [] (sub ++ post) sub tt (has_prefix-append sub post))
contains-append (c ∷ pre) sub post =
    elim (Bool-cases (has_prefix (c ∷ (pre ++ (sub ++ post))) sub)) [
      | inl y ↦ contains_step c (pre ++ (sub ++ post)) sub ∙ rw y refl
      | inr n ↦ contains_step c (pre ++ (sub ++ post)) sub ∙ rw n (contains-append pre sub post)
    ]

found : (b c : Bool) → b ≡ true → (if b then true else c) ≡ true
found b c h = rw h refl

passed : (b c : Bool) → c ≡ true → (if b then true else c) ≡ true
passed true c h = refl
passed false c h = h

-- The message names the code.
abbrev Names : Bytes → ℕ → Type 0
Names msg code = contains_bytes msg (bytes "status=" ++ decimal code) ≡ true

-- The loop over the codes finds the one that the message names.
names_code-Names :
    (n code k : ℕ) (msg : Bytes) → k < n → Names msg (code + k) → names_code n code msg ≡ true
unfolding names_code
names_code-Names zero code k msg h c = absurd (omega arith)
names_code-Names (suc n) code zero msg h c =
    let e : code + 0 ≡ code = omega arith in
    found (contains_bytes msg (bytes "status=" ++ decimal code)) (names_code n (code + 1) msg)
      (subst (Names msg) e c)
names_code-Names (suc n) code (suc k) msg h c =
    let e : code + suc k ≡ code + 1 + k = omega arith in
    passed (contains_bytes msg (bytes "status=" ++ decimal code)) (names_code n (code + 1) msg)
      (names_code-Names n (code + 1) k msg (omega arith) (subst (Names msg) e c))

module _ (resp : Response) where
  -- The message of the error, behind what a caller puts in front.
  http_error-Names : (pre : Bytes) → Names (pre ++ error_text (http_error resp)) resp.status_code
  unfolding error_text http_error
  http_error-Names pre =
      let sub = bytes "status=" ++ decimal resp.status_code in
      let post = bytes " body=" ++ take limit_error_body resp.body in
      let front = bytes "RIPE Stat HTTP error: " in
      contains_bytes-contains_str (pre ++ (front ++ (sub ++ post))) sub
      ∙ (ap (λ s. contains_str s sub) (sym (append_assoc pre front (sub ++ post)))
          ∙ contains-append (pre ++ front) sub post)

  client_lem :
      (e : Error)
      → is e http ≡ true
      → Names (error_text e) resp.status_code
      → 400 ≤ resp.status_code
      → resp.status_code < 500
      → is_client_error e ≡ true
  unfolding is_client_error
  client_lem e h n low high =
      let k : 400 + (resp.status_code - 400) ≡ resp.status_code = omega arith in
      rw h (
        names_code-Names 100 400 (resp.status_code - 400) (error_text e) (omega arith)
          (subst (Names (error_text e)) (sym k) n))

  not_found : 400 ≤ resp.status_code → (resp.status_code == 200) ≡ false
  not_found h = ground arith

  module _ (new_request : Bytes → Result (Unit {0})) (client_do : Bytes → Result Response)
      (decode : Bytes → Result RipeResp) (url : Bytes) where
    fetch_lem :
        new_request url ≡ ok tt
        → client_do url ≡ ok resp
        → 400 ≤ resp.status_code
        → fetch new_request client_do decode url ≡ err (http_error resp)
    unfolding fetch check_response
    fetch_lem n d h = rw (n, d, not_found h) refl

-- Where the last of the attempts is answered with a status of 400 to 499, whatever the others gave
-- and whatever the body says: fetchWithCache ends with the error of that answer, and touches
-- neither the cache nor any other part of the world.
pub fetch_with_cache-ClientError :
    (format : Format RipeResp) (env : Env) (w : World) (path : Bytes) (max_age : ℤ)
    (attempts : ℕ → Result RipeResp) (wait : ℕ → ℤ → Option Error) (base : ℤ) (n : ℕ)
    {final : Option Error} (new_request : Bytes → Result (Unit {0}))
    (client_do : Bytes → Result Response) (decode : Bytes → Result RipeResp) (url : Bytes)
    (resp : Response)
    → Fails attempts wait base 1 n none final
    → before attempts wait (1 + n) base ≡ none
    → attempts (1 + n) ≡ fetch new_request client_do decode url
    → new_request url ≡ ok tt
    → client_do url ≡ ok resp
    → 400 ≤ resp.status_code
    → resp.status_code < 500
    → fetch_with_cache format path max_age (fetch_with_retry attempts wait (pos (n + 1)) base) env w
      ≡ (w, err (exhausted (some (http_error resp))))
unfolding fetch_with_cache fetch_with_retry retry_loop http_error error_text is
fetch_with_cache-ClientError format env w path max_age attempts wait base n {final = final}
      new_request client_do decode url resp fails waits last asked answered low high =
    let failed = fetch_lem resp new_request client_do decode url asked answered low in
    let ended : fetch_with_retry attempts wait (pos (n + 1)) base
        ≡ err (exhausted (some (http_error resp))) =
      retry_loop-after attempts wait base 1 fails
      ∙ retry_step attempts wait base 0 (1 + n) final (http_error resp) waits (last ∙ failed) in
    let e = exhausted (some (http_error resp)) in
    let client : is_client_error e ≡ true =
      client_lem resp e refl (http_error-Names resp (bytes "retries exhausted: ")) low high in
    rw (ended, client) refl
