-- ===== src/Services/Framework.antt =====
-- The FastAPI package, as far as the route for a status needs it: the check of a returned value against
-- the model that the route is annotated with.
use zkp_rollup.Base.{◌≡◌, String, Bool, false, ◌||◌, ◌==◌, string_eq, List, [], ◌∷◌, Option, none}
use zkp_rollup.Types.{SubmissionStatus, SubmissionResponse}

abbrev pub names_field : List String → String → Bool
names_field [] field = false
names_field (f ∷ fields) field = f == field || names_field fields field

-- A `SubmissionStatus` with these attributes, read as a `SubmissionResponse`; none where it is refused,
-- which the server answers with 500.
pub record Framework : Type 0 where
  pub as_submission_response : List String → SubmissionStatus → Option SubmissionResponse

-- A field of the model that has no default must be there; `valid` is one.
pub record IsFramework (f : Framework) : Type 0 where
  pub valid_required :
      (fields : List String) (s : SubmissionStatus)
      → names_field fields "valid" ≡ false
      → f.as_submission_response fields s ≡ none
