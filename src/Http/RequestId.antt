-- ===== src/Http/RequestId.antt =====
-- internal/adapters/http/request_id.go and internal/platform/requestid/request_id.go. The context
-- that the middleware makes is the argument that the next handler gets: the ID that FromContext
-- reads. A byte of 128 or more is refused, as the character that Go decodes there is.
pub mod Valid
use async_job_poc.Base.{
  Bool, true, false, ◌&&◌, ◌||◌, ℕ, [], ◌∷◌, length, ltb, leb, ◌==◌, if◌then◌else◌,
}
use async_job_poc.Text.{Text, bytes, trim_space}
use async_job_poc.Errors.{text, Result, ok, err, wrapped, ◌>>=◌}
use async_job_poc.UseCase.Action.{Action}
use async_job_poc.Idgen.{Bytes, raw_id}
use async_job_poc.Http.Response.{Writer, set_header, http_error}

-- isAllowedRequestIDCharacter
pub is_allowed_request_id_character : ℕ → Bool
is_allowed_request_id_character c =
    (leb b'a' c && leb c b'z')
    || (leb b'A' c && leb c b'Z')
    || (leb b'0' c && leb c b'9')
    || c == b'-'
    || c == b'_'
    || c == b'.'

pub are_allowed : Text → Bool
unfolding is_allowed_request_id_character
are_allowed [] = true
are_allowed (c ∷ s) = is_allowed_request_id_character c && are_allowed s

-- isValidRequestID
unfoldable pub is_valid_request_id : Text → Bool
unfolding are_allowed
is_valid_request_id id =
    if length id == 0 then false else if ltb 128 (length id) then false else are_allowed id

-- newRequestID: the bits that it sets and the format are those of NewID.
unfoldable pub new_request_id : Result Bytes → Result Text
new_request_id random = do
  value ← wrapped (text (bytes "generate request ID: ") ∷ []) random
  ok (raw_id value)

-- A handler, for the request ID in its context.
abbrev pub Next : Type 0 → Type 0
Next W = Text → Writer → W → Writer × W

module _ {W : Type 0} where
  abbrev pub serve : Next W → Text → Writer → W → Writer × W
  serve next id writer w = next id (set_header (bytes "X-Request-ID") id writer) w

  -- requestIDMiddleware, for the value of the header of the request.
  unfoldable pub request_id_middleware :
      (random : Action W Bytes) → Next W → Text → Writer → W → Writer × W
  request_id_middleware random next header writer w =
      let id = trim_space header in
      if is_valid_request_id id
      then serve next id writer w
      else let (r, w') = random w in
        elim (new_request_id r) [
          | err e ↦ (http_error (bytes "failed to create request ID") 500 writer, w')
          | ok generated_id ↦ serve next generated_id writer w'
        ]
