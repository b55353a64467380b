-- ===== src/VersionInfo.antt =====
-- common/core/utils.py: what is_enterprise, is_saas, has_email_provider and get_version_info report. Files
-- are given by their contents, and json.loads is a parameter.
pub mod Reports
use flagsmith_common.Base.{
  ℕ, Bool, true, false, not, ◌||◌, String, Option, none, some, List, [], ◌∷◌, str_eq, ◌==◌,
  if◌then◌else◌,
}
use Prim.Native.Char.{code}

-- The contents of a file, none if there is no such file.
abbrev pub Files : Type 0
Files = String → Option String

abbrev exists : Files → String → Bool
exists files path = elim (files path) [ none ↦ false | some _ ↦ true ]

abbrev pub unknown : String
unknown = "unknown"

abbrev pub versions_info_file_location : String
versions_info_file_location = ".versions.json"

abbrev pub is_enterprise : Files → Bool
is_enterprise files = exists files "./ENTERPRISE_VERSION"

abbrev pub is_saas : Files → Bool
is_saas files = exists files "./SAAS_DEPLOYMENT"

abbrev pub is_oss : Files → Bool
is_oss files = not (is_enterprise files || is_saas files)

pub record EmailSettings : Type 0 where
  pub email_backend : String
  pub email_host_user : Option String
  pub sendgrid_api_key : Option String
  pub aws_ses_region_endpoint : Option String

abbrev is_set : Option String → Bool
is_set none = false
is_set (some _) = true

unfoldable pub has_email_provider : EmailSettings → Bool
has_email_provider settings =
    if str_eq settings.email_backend "django.core.mail.backends.smtp.EmailBackend"
    then is_set settings.email_host_user
    else if str_eq settings.email_backend "sgbackend.SendGridBackend"
    then is_set settings.sendgrid_api_key
    else if str_eq settings.email_backend "django_ses.SESBackend"
    then is_set settings.aws_ses_region_endpoint
    else false

unfoldable pub without_newlines : String → String
without_newlines String.[] = ""
without_newlines (String.◌∷◌ c s) =
    let rest = without_newlines s in if code c == 10 then rest else String.◌∷◌ c rest

unfoldable pub get_file_contents : Files → String → Option String
unfolding without_newlines
get_file_contents files file_path = elim (files file_path) [
  | none ↦ none
  | some text ↦ some (without_newlines text)
]

-- The manifest, by its keys.
abbrev pub VersionManifest : Type 0
VersionManifest = String → Option String

abbrev unknown_manifest : VersionManifest
unknown_manifest key = if str_eq key "." then some unknown else none

pub record SelfHostedData : Type 0 where
  pub has_users : Bool
  pub has_logins : Bool

pub record VersionInfo : Type 0 where
  pub ci_commit_sha : String
  pub image_tag : String
  pub has_email_provider : Bool
  pub is_enterprise : Bool
  pub is_saas : Bool
  pub self_hosted_data : Option SelfHostedData
  pub package_versions : VersionManifest

-- `get_file_contents(...) or UNKNOWN`
abbrev or_unknown : Option String → String
or_unknown none = unknown
or_unknown (some text) = if str_eq text "" then unknown else text

-- A result of `none` is an exception: the text does not parse, or there is no key ".".
module _ (loads : String → Option VersionManifest) where
  unfoldable pub get_versions_from_manifest : Files → Option VersionManifest
  unfolding get_file_contents
  get_versions_from_manifest files = elim (get_file_contents files versions_info_file_location) [
    | none ↦ some unknown_manifest
    | some raw_content ↦ if str_eq raw_content "" then some unknown_manifest else loads raw_content
  ]

  unfoldable pub get_version : Files → Option String
  unfolding get_versions_from_manifest
  get_version files = elim (get_versions_from_manifest files) [
    | none ↦ none
    | some manifest ↦ some (elim (manifest ".") [ none ↦ unknown | some version ↦ version ])
  ]

  -- `users` and `logins`: what the two queries on the users answer.
  unfoldable pub get_version_info :
      Files → EmailSettings → (users logins : Bool) → Option VersionInfo
  unfolding get_versions_from_manifest get_file_contents has_email_provider
  get_version_info files settings users logins = elim (get_versions_from_manifest files) [
    | none ↦ none
    | some manifest ↦ elim (manifest ".") [
      | none ↦ none
      | some image_tag ↦ some (record {
        ci_commit_sha = or_unknown (get_file_contents files "./CI_COMMIT_SHA");
        image_tag = image_tag;
        has_email_provider = has_email_provider settings;
        is_enterprise = is_enterprise files;
        is_saas = is_saas files;
        self_hosted_data =
            if is_saas files
            then none
            else some (record { has_users = users; has_logins = logins });
        package_versions = manifest;
      })
    ]
  ]
