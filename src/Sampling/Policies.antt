-- ===== src/Sampling/Policies.antt =====
-- sampling/config.go: the policies of tail-based sampling and the validation of the local sampling
-- configuration, whose errors are texts.
use Prim.Native.String.{◌++◌}
use apm_server.Prelude.{
  ℕ, String, Option, none, some, Bool, true, false, ◌&&◌, ◌||◌, List, [], ◌∷◌, ◌==◌, str_eq,
  if◌then◌else◌, ℤ, pos, negsuc, is_empty, ◌⊎◌, inl, inr,
}
use apm_server.Model.Float64.{Float64}

pub record PolicyCriteria : Type 0 where
  pub service_name : String
  pub service_environment : String
  pub trace_outcome : String
  pub trace_name : String

pub record Policy (F : Type 0) : Type 0 where
  pub criteria : PolicyCriteria
  pub sample_rate : F

-- `policy.PolicyCriteria == (PolicyCriteria{})`
unfoldable pub is_default : PolicyCriteria → Bool
is_default c =
    str_eq c.service_name ""
    && str_eq c.service_environment ""
    && str_eq c.trace_outcome ""
    && str_eq c.trace_name ""

-- `LocalSamplingConfig`
pub record LocalSamplingConfig (F : Type 0) : Type 0 where
  pub flush_interval : ℤ
  pub max_dynamic_services : ℤ
  pub policies : List (Policy F)
  pub ingest_rate_decay_factor : F

abbrev pub nonneg : ℤ → ℕ
nonneg (pos n) = n
nonneg (negsuc n) = 0

module _ (fl : Float64) where
  open fl use {F, of_int, ltb as ltb_float, leb as leb_float}

  -- `Policy.validate`
  unfoldable pub validate_policy : Policy F → Option String
  validate_policy p =
      if ltb_float p.sample_rate (of_int (pos 0)) || leb_float (of_int (pos 1)) p.sample_rate
      then some "SampleRate unspecified or out of range [0,1)"
      else none

  -- The loop over the policies: the first error, or whether one of them is the default policy.
  unfoldable pub check_policies : List (Policy F) → Bool → String ⊎ Bool
  unfolding validate_policy is_default
  check_policies [] any_default = inr any_default
  check_policies (p ∷ ps) any_default = elim (validate_policy p) [
    | some reason ↦ inl ("Policy invalid: " ++ reason)
    | none ↦ check_policies ps (is_default p.criteria || any_default)
  ]

  unfoldable pub validate_checked : F → String ⊎ Bool → Option String
  validate_checked factor (inl reason) = some reason
  validate_checked factor (inr false) =
      some "Policies does not contain a default (empty criteria) policy"
  validate_checked factor (inr true) =
      if leb_float factor (of_int (pos 0)) || ltb_float (of_int (pos 1)) factor
      then some "IngestRateDecayFactor unspecified or out of range (0,1]"
      else none

  -- `LocalSamplingConfig.validate`; the text of a policy's error leaves out its index.
  unfoldable pub validate_local : LocalSamplingConfig F → Option String
  unfolding check_policies validate_checked
  validate_local config =
      if nonneg config.flush_interval == 0
      then some "FlushInterval unspecified or negative"
      else (if nonneg config.max_dynamic_services == 0
          then some "MaxDynamicServices unspecified or negative"
          else (if is_empty config.policies
              then some "Policies unspecified"
              else validate_checked config.ingest_rate_decay_factor
                  (check_policies config.policies false)))
