-- ===== src/Failure.antt =====
-- What a delivery can raise, as far as the queues tell the cases apart: siatt/errors.py and the
-- `error: BaseException | str` of the two `fail` methods.
use Prim.Native.String.{◌++◌ as cat}
use siatt.Base.{String, Bool, true, false, not, nat_keyed, string_keyed, pair_keyed}

pub data Failure : Type 0 where
  -- DeliveryRefused: the surface refused the answer.
  delivery_refused : String → Failure
  -- An LLMError of the class named first, with its `retryable`.
  llm_error : String → Bool → String → Failure
  -- Any other exception: its class and its text.
  exception : String → String → Failure
  -- A plain text in place of an exception.
  text : String → Failure

-- `_hopeless` of core/inbox.py: repeating the delivery could not do better.
abbrev pub hopeless : Failure → Bool
hopeless (delivery_refused message) = true
hopeless (llm_error name retryable message) = not retryable
hopeless _ = false

-- `f"{type(error).__name__}: {error}"`, or the text itself.
abbrev pub reason_of : Failure → String
reason_of (delivery_refused message) = cat "DeliveryRefused: " message
reason_of (llm_error name retryable message) = cat name (cat ": " message)
reason_of (exception name message) = cat name (cat ": " message)
reason_of (text message) = message
