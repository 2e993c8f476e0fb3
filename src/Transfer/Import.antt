-- ===== src/Transfer/Import.antt =====
-- The import of apps/web/src/components/import-services-form.tsx: each service is created, and then
-- its variables are saved, one service after the other.
use vexdock.Base.{
  filter, Bool, false, not, ◌&&◌, ◌⊎◌, inl, inr, Option, none, some, List, [], ◌∷◌, ◌++◌, any,
  if◌then◌else◌,
}
use vexdock.Text.{Text, codes, text_eq}
use vexdock.Api.Projects.{ProjectCall, ProjectAnswer, NewService, NewDatabase, create_service}
use vexdock.Api.Services.{ServiceCall, ServiceAnswer, service_variables, save_service_variables}
use vexdock.Bulk.Names.{has}
use vexdock.Bulk.Run.{strip_dot}
use vexdock.Transfer.Decode.{PortableService}
use vexdock.Transfer.Merge.{or_none, merge_env}

-- The services that are offered: names that are not taken, and that the reader keeps.
unfoldable pub importable : List Text → List Text → List PortableService → List PortableService
importable taken skipped services =
    filter (λ s. not (has s.name taken) && not (has s.name skipped)) services

-- A secret came without its value.
unfoldable pub withheld_secrets : List PortableService → Bool
withheld_secrets services =
    any (λ s. any (λ v. v.is_secret && text_eq v.value []) (or_none s.env)) services

-- `service.engine ? … : …`
abbrev pub has_engine : Option Text → Bool
has_engine none = false
has_engine (some e) = not (text_eq e [])

abbrev database_of : PortableService → Option Text → Option NewDatabase
database_of s none = none
database_of s (some []) = none
database_of s (some (c ∷ cs)) = some (record {
  engine = c ∷ cs;
  version = none;
  name = none;
  user = none;
  password = none;
  image = s.image;
  data_path = s.data_path;
  sqld_node = none;
  sqld_primary_url = none;
  sqld_namespaces = none;
})

unfoldable pub new_service : PortableService → NewService
new_service s = record {
  name = s.name;
  container_name = none;
  provider = s.provider;
  repository_url = s.repository_url;
  branch = s.branch;
  build_path = s.build_path;
  credential_kind = none;
  credential_secret = none;
  git_provider_id = s.git_provider_id;
  owner = s.owner;
  repository = s.repository;
  image = if has_engine s.engine then none else s.image;
  compose_fragment = s.compose_fragment;
  database = database_of s s.engine;
}

-- The manager: a call changes its state, and throws an error with a message, or answers.
pub record Manager (S : Type 0) : Type 1 where
  pub on_project : S → (c : ProjectCall) → S × (Text ⊎ ProjectAnswer c)
  pub on_service : S → (c : ServiceCall) → S × (Text ⊎ ServiceAnswer c)

-- Every service is imported, or one fails with an error.
pub data Ended : Type 0 where
  imported : Ended
  failed : Text → Ended

abbrev pub without_variables : Text → Text → Text
without_variables name message =
    name
    ++ codes " was created without its variables: "
    ++ strip_dot message
    ++ codes ". Paste them in its Environment tab."

abbrev pub not_created : Text → Text → Text
not_created name message = name ++ codes ": " ++ message

module _ {S : Type 0} (m : Manager S) (project : Text) (environment : Option Text) where
  -- What follows a call whose error says `what`.
  abbrev continue : {A : Type 0} → (Text → Text) → (S → A → S × Ended) → S × (Text ⊎ A) → S × Ended
  continue what next (s, inl message) = (s, failed (what message))
  continue what next (s, inr a) = next s a

  unfoldable pub import_all : List PortableService → S → S × Ended
  import_all [] s = (s, imported)
  import_all (p ∷ ps) s =
      continue (not_created p.name)
        (λ s created.
          continue (without_variables p.name)
            (λ s seeded.
              continue (without_variables p.name) (λ s _. import_all ps s)
                (m.on_service s (save_service_variables created.id (merge_env seeded p.env))))
            (m.on_service s (service_variables created.id)))
        (m.on_project s (create_service project (new_service p) environment))
