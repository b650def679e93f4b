-- ===== src/Edge/Redacted.antt =====
-- What the errors of a managed tunnel say: `redactErrorText`, `redactError` and `formatExitError` of
-- internal/edge/cloudflared.go. The texts of the errors of other code are a parameter.
use Prim.Native.String.{String}
use credimi_runner.Prelude.{Option, none, some, if◌then◌else◌, str_eq, str_append}
use credimi_runner.GoError.{GoError, message}
use credimi_runner.Edge.QuickUrl.{replace_all}

module _ (error_text : GoError → String) where
  unfoldable pub redact_error_text : String → Option GoError → String
  unfolding replace_all
  redact_error_text token none = ""
  redact_error_text token (some e) =
      if str_eq token "" then error_text e else replace_all token "[REDACTED]" (error_text e)

  unfoldable pub redact_error : String → Option GoError → Option GoError
  unfolding redact_error_text
  redact_error token none = none
  redact_error token (some e) = some (message (redact_error_text token (some e)))

  unfoldable pub format_exit_error : String → String → Option GoError → GoError
  unfolding redact_error_text
  format_exit_error token prefix none = message prefix
  format_exit_error token prefix (some e) =
      message (str_append prefix (str_append ": " (redact_error_text token (some e))))
