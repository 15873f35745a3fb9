-- ===== src/Instances/Compatibility.antt =====
-- Whether an instance speaks a version of Omegon that Auspex supports:
-- auspex-core/src/compatibility.rs, and `ObservedControlPlane` of auspex-core/src/runtime_types.rs,
-- which it reads.
use auspex.Prelude.{
  ℕ, ◌≡◌, String, Bool, false, not, ◌||◌, Option, none, some, List, [], ◌∷◌, ◌++◌, str_eq, is_empty,
  trim, trim_start_matches_char, ◌==◌, if◌then◌else◌, concat, to_decimal,
}

pub record ObservedControlPlane : Type 0 where
  pub schema_version : ℕ
  pub omegon_version : String
  pub base_url : String
  pub startup_url : String
  pub health_url : String
  pub ready_url : String
  pub ws_url : String
  pub acp_url : Option String
  pub auth_mode : String
  pub token_ref : Option String
  pub transport_security : Option String
  pub mtls : Option Bool
  pub tls_secret : Option String
  pub tls_profile : Option String
  pub tls_ca_epoch : Option String
  pub tls_leaf_epoch : Option String
  pub tls_leaf_validity : Option String
  pub ca_fingerprint_sha256 : Option String
  pub server_fingerprint_sha256 : Option String
  pub last_ready_at : Option String

pub data CompatibilityStatus : Type 0 where
  compatible unsupported unknown : CompatibilityStatus

pub record CompatibilityIssue : Type 0 where
  pub code : String
  pub detail : String

pub record CompatibilityAssessment : Type 0 where
  pub status : CompatibilityStatus
  pub minimum_omegon_version : String
  pub maximum_tested_omegon_version : String
  pub expected_web_startup_schema : ℕ
  pub expected_instance_descriptor_schema : ℕ
  pub expected_control_plane_protocol : ℕ
  pub observed_omegon_version : Option String
  pub observed_schema_version : Option ℕ
  pub issues : List CompatibilityIssue

abbrev pub minimum_version : String
minimum_version = "0.29.0-dev"

abbrev pub maximum_tested_version : String
maximum_tested_version = "0.29.0-dev"

abbrev pub web_startup_schema_version : ℕ
web_startup_schema_version = 2

abbrev pub new_issue : String → String → CompatibilityIssue
new_issue code detail = record { code = code; detail = detail }

-- `CompatibilityAssessment::with_issues`; `compatible` is the case without issues.
abbrev pub with_issues :
    CompatibilityStatus
    → Option String
    → Option ℕ
    → List CompatibilityIssue
    → CompatibilityAssessment
with_issues status version schema issues = record {
  status = status;
  minimum_omegon_version = minimum_version;
  maximum_tested_omegon_version = maximum_tested_version;
  expected_web_startup_schema = web_startup_schema_version;
  expected_instance_descriptor_schema = 1;
  expected_control_plane_protocol = 1;
  observed_omegon_version = version;
  observed_schema_version = schema;
  issues = issues;
}

-- The crate `semver`: `Version::parse(…).ok()` and `<`, and the parsed constant, which the code
-- expects to be valid.
pub record Semver : Type 1 where
  pub Version : Type 0
  pub parse : String → Option Version
  pub less : Version → Version → Bool
  pub minimum : Version
  pub minimum_is_valid : parse minimum_version ≡ some minimum

module _ (semver : Semver) where
  open semver use {Version, parse, less, minimum}

  unfoldable pub parse_omegon_version : String → Option Version
  parse_omegon_version version = parse (trim_start_matches_char b'v' (trim version))

  abbrev pub is_missing : String → Bool
  is_missing version = is_empty (trim version) || str_eq version "unknown"

  missing_issues : String → List CompatibilityIssue
  missing_issues version =
      if is_missing version
      then new_issue "missing_omegon_version" "Omegon version is absent or unknown" ∷ []
      else []

  schema_issues : ℕ → List CompatibilityIssue
  schema_issues schema =
      if not (schema == web_startup_schema_version)
      then new_issue "web_startup_schema_mismatch" (
          concat (
            "expected web startup schema "
            ∷ to_decimal web_startup_schema_version
            ∷ ", observed "
            ∷ to_decimal schema
            ∷ []))
        ∷ []
      else []

  version_issues : Option String → List CompatibilityIssue
  unfolding parse_omegon_version
  version_issues none = []
  version_issues (some text) = elim (parse_omegon_version text) [
    | some version ↦
        if less version minimum
        then new_issue "omegon_version_unsupported"
            (concat ("Omegon " ∷ text ∷ " is older than required " ∷ minimum_version ∷ []))
          ∷ []
        else []
    | none ↦
        new_issue "invalid_omegon_version"
          (concat ("Omegon version '" ∷ text ∷ "' is not valid semver" ∷ []))
        ∷ []
  ]

  abbrev observed_version : String → Option String
  observed_version version = if is_missing version then none else some version

  assessment_of : ObservedControlPlane → List CompatibilityIssue → CompatibilityAssessment
  assessment_of cp [] = with_issues compatible (some cp.omegon_version) (some cp.schema_version) []
  assessment_of cp (issue ∷ issues) =
      with_issues
        (elim (observed_version cp.omegon_version) [ none ↦ unknown | some v ↦ unsupported ])
        (observed_version cp.omegon_version) (some cp.schema_version) (issue ∷ issues)

  unfoldable pub assess_observed_control_plane : ObservedControlPlane → CompatibilityAssessment
  unfolding missing_issues schema_issues version_issues assessment_of parse_omegon_version
  assess_observed_control_plane cp = assessment_of cp (
      missing_issues cp.omegon_version
      ++ (schema_issues cp.schema_version ++ version_issues (observed_version cp.omegon_version)))

  -- An instance states a version, and it is at least the minimum.
  pub record IsSupported (cp : ObservedControlPlane) : Type 0 where
    pub stated : is_missing cp.omegon_version ≡ false
    pub schema : cp.schema_version ≡ web_startup_schema_version
    pub version : Version
    pub parsed : parse_omegon_version cp.omegon_version ≡ some version
    pub recent : less version minimum ≡ false
