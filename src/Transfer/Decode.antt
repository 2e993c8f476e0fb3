-- ===== src/Transfer/Decode.antt =====
-- `decodeExport` of apps/web/src/components/import-services-form.tsx.
use vexdock.Base.{
  Bool, true, not, ◌||◌, Option, none, some, List, [], ◌∷◌, ◌++◌, any, if◌then◌else◌,
}
use vexdock.Text.{Text, codes, text_eq, trim}
use vexdock.Api.Types.Services.{
  ServiceProvider, unconfigured, github, gitlab, bitbucket, gitea, git, from_image, raw_fragment,
}
use vexdock.Transfer.Merge.{Variable}

-- One service as it travels between projects.
pub record PortableService : Type 0 where
  pub name : Text
  pub provider : ServiceProvider
  pub repository_url : Option Text
  pub git_provider_id : Option Text
  pub owner : Option Text
  pub repository : Option Text
  pub branch : Option Text
  pub build_path : Option Text
  pub image : Option Text
  pub engine : Option Text
  pub data_path : Option Text
  pub compose_fragment : Option Text
  pub env : Option (List Variable)

-- An export; its version is 2.
pub record Export : Type 0 where
  pub project : Text
  pub services : List PortableService

-- What is pasted, read as JSON: an entry of `services` is an object with a name and a provider as
-- texts or not, and as the service it claims to be. `version_text` is `String(version)`.
pub record Entry : Type 0 where
  pub name : Option Text
  pub provider : Option Text
  pub as_service : PortableService

pub record Candidate : Type 0 where
  pub is_version_2 : Bool
  pub version_text : Text
  pub project : Option Text
  pub services : Option (List (Option Entry))

-- `GIT_PROVIDERS` and the two lists that are built from it.
abbrev git_providers : List Text
git_providers =
    codes "github" ∷ codes "gitlab" ∷ codes "bitbucket" ∷ codes "gitea" ∷ codes "git" ∷ []

abbrev providers : List Text
providers = codes "unconfigured" ∷ git_providers ++ codes "image" ∷ codes "raw" ∷ []

abbrev provider_text : ServiceProvider → Text
provider_text unconfigured = codes "unconfigured"
provider_text github = codes "github"
provider_text gitlab = codes "gitlab"
provider_text bitbucket = codes "bitbucket"
provider_text gitea = codes "gitea"
provider_text git = codes "git"
provider_text from_image = codes "image"
provider_text raw_fragment = codes "raw"

-- `isGitProvider`
unfoldable pub is_git_provider : ServiceProvider → Bool
is_git_provider p = any (text_eq (provider_text p)) git_providers

abbrev lacks_name : Option Text → Bool
lacks_name none = true
lacks_name (some name) = text_eq name []

abbrev is_unknown : Option Text → Bool
is_unknown none = true
is_unknown (some p) = not (any (text_eq p) providers)

-- `!service?.name || !providers.includes(service.provider)`
abbrev pub is_broken : Option Entry → Bool
is_broken none = true
is_broken (some e) = lacks_name e.name || is_unknown e.provider

abbrev as_services : List (Option Entry) → List PortableService
as_services [] = []
as_services (none ∷ es) = as_services es
as_services (some e ∷ es) = e.as_service ∷ as_services es

pub data Decoded : Type 0 where
  decoded : Export → Decoded
  refused : Text → Decoded

abbrev pub not_an_export : Text
not_an_export = codes "That is not a Vexdock export. Copy it from a project’s settings, unedited."

abbrev other_version : Text → Text
other_version version =
    codes "This export is version "
    ++ version
    ++ codes
        ", and this server reads version 2. Export it again from a server on the current Vexdock."

-- `candidate.project ?? 'unknown'`
abbrev project_or_unknown : Option Text → Text
project_or_unknown none = codes "unknown"
project_or_unknown (some p) = p

abbrev of_services : Candidate → List (Option Entry) → Decoded
of_services c es =
    if any is_broken es
    then refused not_an_export
    else if not c.is_version_2
    then refused (other_version c.version_text)
    else exported es
  where
    exported : List (Option Entry) → Decoded
    exported [] = refused (codes "This export has no services. Export a project that has some.")
    exported (e ∷ es) =
        decoded (record { project = project_or_unknown c.project; services = as_services (e ∷ es) })

abbrev of_candidate : Option Candidate → Decoded
of_candidate none = refused not_an_export
of_candidate (some c) = of_listed c c.services
  where
    of_listed : Candidate → Option (List (Option Entry)) → Decoded
    of_listed c none = refused not_an_export
    of_listed c (some es) = of_services c es

-- `read` decodes base64, UTF-8 and JSON; it has no answer where one of them throws or the value is
-- no object.
unfoldable pub decode_export : (Text → Option Candidate) → Text → Decoded
decode_export read pasted =
    if text_eq (trim pasted) [] then refused (codes "empty") else of_candidate (read (trim pasted))
