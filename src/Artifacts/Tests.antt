-- ===== src/Artifacts/Tests.antt =====
-- Artifact directories at concrete requests.
use credimi_runner.Prelude.{◌≡◌, ◌≢◌, refl, String, str_append, List, [], ◌∷◌, All}
use credimi_runner.GoError.{message, ok, err}
use credimi_runner.Strings.{trim_space, split_on, trim_first_of}
use credimi_runner.Strings.Patterns.{matches}
use credimi_runner.Artifacts.{
  slash, canonical_device_identifier, Paths, run_parts, workspace, device_artifact_root,
  check_parts,
}
use credimi_runner.Artifacts.Laws.{IsName, device_artifact_root-IsName}

abbrev joined_path : List String → String
joined_path [] = ""
joined_path (p ∷ ps) = str_append p (str_append "/" (joined_path ps))

abbrev paths : Paths
paths = record { join = joined_path; digest = λ id. "d1ce" }

abbrev target : String
target = "/srv/device-d1ce/run-1/step_2//"

accepted : device_artifact_root paths "/srv" " /acme/lab/phone " "run-1/step_2" ≡ ok target
unfolding device_artifact_root check_parts canonical_device_identifier trim_space split_on
    trim_first_of matches
accepted = refl

upwards :
    device_artifact_root paths "/srv" "acme/lab/phone" "run-1/../.."
    ≡ err (message "unsafe run identifier")
unfolding device_artifact_root check_parts canonical_device_identifier trim_space split_on
    trim_first_of matches
upwards = refl

device_artifact_root-IsName_example :
    (target
      ≡ paths.join (
          "/srv"
          ∷ workspace paths (canonical_device_identifier " /acme/lab/phone ")
          ∷ paths.join (run_parts "run-1/step_2")
          ∷ []))
    × IsName (workspace paths (canonical_device_identifier " /acme/lab/phone "))
    × All IsName (run_parts "run-1/step_2")
    × (run_parts "run-1/step_2" ≢ [])
    × All IsName (split_on slash (canonical_device_identifier " /acme/lab/phone "))
device_artifact_root-IsName_example =
    device_artifact_root-IsName paths "/srv" " /acme/lab/phone " "run-1/step_2" target
      (λ text. refl) accepted
