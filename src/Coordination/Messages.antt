-- ===== src/Coordination/Messages.antt =====
-- The requests and results that the Dashboard and a host command exchange through files:
-- internal/servicecoordination/servicecoordination.go. encoding/json is a parameter. A time is a
-- number, and 0 the zero time.
use Prim.Native.String.{String}
use credimi_runner.Prelude.{
  by_test, ℕ, Bool, false, ◌||◌, ◌≡◌, ◌≢◌, ap, ◌∙◌, Option, none, some, if◌then◌else◌, ◌==◌,
  str_append,
}
use credimi_runner.GoError.{message, wrap, syscall, enoent, Result, ok, err}
use credimi_runner.Strings.{trim_space, is_blank}
use credimi_runner.Disk.{
  Ownership, Entry, regular, symlink, irregular, Disk, Faults, Done, Written, write_atomic,
}
use credimi_runner.Disk.Atomic.{write_atomic-IsWhole}

pub record RestartRequest : Type 0 where
  pub request_id : String
  pub requested_config_digest : String
  pub force_restart : Bool
  pub created_at : ℕ

pub record RestartResult : Type 0 where
  pub request_id : String
  pub success : Bool
  pub applied_fingerprint : String
  pub error : String
  pub updated_at : ℕ

-- What both `Write` and `Read` of a request, and of a result, refuse.
abbrev pub is_request_incomplete : RestartRequest → Bool
is_request_incomplete r =
    is_blank r.request_id || is_blank r.requested_config_digest || r.created_at == 0

abbrev pub is_result_incomplete : RestartResult → Bool
is_result_incomplete r = is_blank r.request_id || r.updated_at == 0

-- `NewRestartRequest`, with the ID that is made of random bytes.
unfoldable pub new_restart_request : String → String → Bool → ℕ → RestartRequest
unfolding trim_space
new_restart_request id digest force now = record {
  request_id = id;
  requested_config_digest = trim_space digest;
  force_restart = force;
  created_at = now;
}

-- What reading a path gives that is no regular file.
module _ (follow : Entry → Result String) where
  abbrev pub read_entry : Option Entry → Result String
  read_entry none = err (syscall enoent)
  read_entry (some (regular f)) = ok f.contents
  read_entry (some symlink) = follow symlink
  read_entry (some irregular) = follow irregular

  -- The checks of `ReadRestartRequest` and `ReadRestartResult`, after `readJSON`.
  abbrev pub accepted {ℓ} : {A : Type ℓ} → (A → Bool) → String → Result A → Result A
  accepted incomplete text (err e) = err (wrap "decode" e)
  accepted incomplete text (ok a) = if incomplete a then err (message text) else ok a

  abbrev pub decoded_message {ℓ} :
      {A : Type ℓ} → (A → Bool) → String → (String → Result A) → Result String → Result A
  decoded_message incomplete text decode (err e) = err e
  decoded_message incomplete text decode (ok raw) = accepted incomplete text (decode raw)

  unfoldable pub read_restart_request :
      (String → Result RestartRequest) → String → Disk → Result RestartRequest
  read_restart_request decode path disk =
      decoded_message is_request_incomplete "service restart request is invalid" decode
        (read_entry (disk path))

  unfoldable pub read_restart_result :
      (String → Result RestartResult) → String → Disk → Result RestartResult
  read_restart_result decode path disk =
      decoded_message is_result_incomplete "service restart result is invalid" decode
        (read_entry (disk path))

module _ (faults : Faults) (temporary path : String) (owner : Option Ownership) (root : Bool) where
  abbrev pub json_file : String → Written
  json_file text = record { text = str_append text "\n"; error = none }

  -- `writeJSON`
  unfoldable pub write_json : String → Disk → Done
  unfolding write_atomic
  write_json text disk =
      write_atomic faults temporary path 384 owner root (some (json_file text)) disk

  unfoldable pub write_restart_request : (RestartRequest → String) → RestartRequest → Disk → Done
  unfolding write_json
  write_restart_request encode r disk =
      if is_request_incomplete r
      then (disk, some (message "service restart request is incomplete"))
      else write_json (encode r) disk

  unfoldable pub write_restart_result : (RestartResult → String) → RestartResult → Disk → Done
  unfolding write_json
  write_restart_result encode r disk =
      if is_result_incomplete r
      then (disk, some (message "service restart result is incomplete"))
      else write_json (encode r) disk

  module _ (follow : Entry → Result String) (apart : temporary ≢ path) where
    -- What was written is what is read.
    abbrev Reads {ℓ} : {A : Type ℓ} → (A → Bool) → String → (String → Result A) → A → Done → Type ℓ
    Reads incomplete text decode a d =
        d.1 ≡ none
        → decoded_message follow incomplete text decode (read_entry follow (d.0 path)) ≡ ok a

    written-Reads :
        {A : Type 0} (incomplete : A → Bool) (text : String) (decode : String → Result A)
        (raw : String) (a : A) (disk : Disk)
        → decode (str_append raw "\n") ≡ ok a
        → incomplete a ≡ false
        → Reads incomplete text decode a (write_json raw disk)
    unfolding write_json
    written-Reads incomplete text decode raw a disk code full h =
        let whole =
          write_atomic-IsWhole faults temporary path 384 owner root (json_file raw) disk apart in
        let there = whole.1 h in
        ap (λ x. decoded_message follow incomplete text decode (read_entry follow x)) there
        ∙ ap (accepted follow incomplete text) code
        ∙ ap (λ (b : Bool). if b then err (message text) else ok a) full

    -- If the codec reads back what it wrote: a restart request that was written without an error is
    -- read as it was, and so is a restart result.
    pub read-write_restart :
        (encode : RestartRequest → String) (decode : String → Result RestartRequest)
        (encode_result : RestartResult → String) (decode_result : String → Result RestartResult)
        (r : RestartRequest) (s : RestartResult) (disk : Disk)
        → decode (str_append (encode r) "\n") ≡ ok r
        → decode_result (str_append (encode_result s) "\n") ≡ ok s
        → ((write_restart_request encode r disk).1 ≡ none
            → read_restart_request follow decode path (write_restart_request encode r disk).0
              ≡ ok r)
          × ((write_restart_result encode_result s disk).1 ≡ none
              → read_restart_result follow decode_result path
                  (write_restart_result encode_result s disk).0
                ≡ ok s)
    unfolding write_restart_request write_restart_result read_restart_request read_restart_result
    read-write_restart encode decode encode_result decode_result r s disk c d = (
      by_test (Reads is_request_incomplete "service restart request is invalid" decode r)
          (is_request_incomplete r) _ _ (λ b h. cc)
          (λ b. written-Reads is_request_incomplete _ decode (encode r) r disk c b),
      by_test (Reads is_result_incomplete "service restart result is invalid" decode_result s)
          (is_result_incomplete s) _ _ (λ b h. cc)
          (λ b. written-Reads is_result_incomplete _ decode_result (encode_result s) s disk d b),
    )
