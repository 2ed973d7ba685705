-- ===== src/Executor/Payload.antt =====
-- internal/adapters/executor/payload.go, and what the handlers share. The JSON decoder is a
-- parameter: what its two calls of Decode give for a payload.
use async_job_poc.Base.{
  ℤ, pos, Bool, false, String, Option, [], ◌∷◌, ltb_ℤ, if◌then◌else◌, length, ◌==◌,
}
use async_job_poc.Text.{Text, bytes}
use async_job_poc.Errors.{
  Error, sentinel, foreign, wrap, text, eof, is, invalid_handler_payload, Result, ok, err, ◌>>◌,
  ensure,
}
use async_job_poc.Job.Entity.{Job}
use async_job_poc.UseCase.Action.{Action}

-- Handler: Handle on a job that may be nil.
abbrev pub Handler : Type 0 → Type 0
Handler W = Option Job → Action W (Unit {0})

-- `select` between ctx.Done() and a timer of the given duration: the error is ctx.Err().
abbrev pub Wait : Type 0 → Type 0
Wait W = ℤ → Action W (Unit {0})

pub data Decoded (T : Type 0) : Type 0 where
  value : T → Decoded T
  malformed : Text → Decoded T

-- The first Decode, with DisallowUnknownFields, and the second one, into an empty struct.
pub record Stream (T : Type 0) : Type 0 where
  pub first : Decoded T
  pub second : Result (Unit {0})

is_eof : Result (Unit {0}) → Bool
is_eof (ok _) = false
is_eof (err e) = is e eof

-- fmt.Errorf("%w: …", ErrInvalidHandlerPayload)
abbrev pub payload_error : String → Error
payload_error reason = wrap [] (sentinel invalid_handler_payload) (text (bytes reason) ∷ [])

-- decodeStrictPayload
unfoldable pub decode_strict_payload : {T : Type 0} → Stream T → Result T
unfolding is_eof
decode_strict_payload s = elim s.first [
  | malformed reason ↦
      err (wrap [] (sentinel invalid_handler_payload) (text (bytes ": ") ∷ text reason ∷ []))
  | value v ↦
      if is_eof s.second then ok v else err (payload_error ": payload must contain one JSON object")
]

-- s == ""
abbrev pub is_empty : Text → Bool
is_empty s = length s == 0

-- The two checks of each handler's constructor, for its duration and for whether it has a logger.
unfoldable pub check_handler : ℤ → Bool → Result ℤ
check_handler processing_duration has_logger = do
  ensure (ltb_ℤ (pos 0) processing_duration)
      (foreign (bytes "processing duration must be greater than zero"))
  ensure has_logger (foreign (bytes "logger must not be nil"))
  ok processing_duration
