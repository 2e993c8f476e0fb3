-- ===== src/Api/Docker.antt =====
-- Calls of apps/web/src/lib/api.ts: containers, images, volumes and the git hosts.
use vexdock.Base.{Bool, Option, List, some, [], ◌∷◌, ◌++◌}
use vexdock.Text.{Text, codes}
use vexdock.Api.Browser.{Browser}
use vexdock.Api.Call.{
  Call, Ignored, Method, Number, bare, delete, flag_text, get, patch, post, put, sends,
}
use vexdock.Api.Projects.{Done}
use vexdock.Api.Types.Access.{GitProvider, GitRepository}
use vexdock.Api.Types.Docker.{
  CleanupPreview, ContainerAction, start_it, stop_it, restart_it, remove_it, ContainerSummary,
  ImageSummary, NetworkSummary, VolumeSummary,
}

abbrev pub container_action_text : ContainerAction → Text
container_action_text start_it = codes "start"
container_action_text stop_it = codes "stop"
container_action_text restart_it = codes "restart"
container_action_text remove_it = codes "remove"

-- Whether there is a connection already decides the method and the path.
abbrev pub save_method : Option Text → Method
save_method (some (c ∷ cs)) = put
save_method _ = post

abbrev pub saved : Option Text → Text
saved (some (c ∷ cs)) = b'/' ∷ c ∷ cs
saved _ = []

pub record ImageReference : Type 0 where
  pub reference : Text

pub record PullOutput : Type 0 where
  pub output : Text

pub data CleanupKind : Type 0 where
  unused_containers unused_images unused_volumes unused_networks build_cache : CleanupKind

pub record CleanupResult : Type 0 where
  pub kind : Text
  pub removed : Number
  pub space_reclaimed : Number

pub record GitProviders : Type 0 where
  pub git_providers : List GitProvider

pub record NewName : Type 0 where
  pub name : Text

pub record Repositories : Type 0 where
  pub repositories : List GitRepository

pub record Branches : Type 0 where
  pub branches : List Text

pub record GitHubApp : Type 0 where
  pub name : Text
  pub github_url : Option Text
  pub organization : Option Text

pub record GitHubStart : Type 0 where
  pub git_provider_id : Text
  pub manifest_url : Text

pub record GitLabApp : Type 0 where
  pub name : Text
  pub gitlab_url : Option Text
  pub application_id : Text
  pub secret : Text
  pub group_name : Option Text

pub record GiteaApp : Type 0 where
  pub name : Text
  pub gitea_url : Option Text
  pub client_id : Text
  pub client_secret : Text
  pub organization_name : Option Text

pub record BitbucketApp : Type 0 where
  pub name : Text
  pub bitbucket_username : Option Text
  pub app_password : Option Text
  pub bitbucket_email : Option Text
  pub api_token : Option Text
  pub bitbucket_workspace_name : Option Text

pub record GitStart : Type 0 where
  pub git_provider_id : Text
  pub authorize_url : Text

pub record GitSaved : Type 0 where
  pub git_provider_id : Text

-- The kind in the path; a cleanup of volumes is confirmed.
abbrev pub cleanup_text : CleanupKind → Text
cleanup_text unused_containers = codes "containers"
cleanup_text unused_images = codes "images"
cleanup_text unused_volumes = codes "volumes?confirm=true"
cleanup_text unused_networks = codes "networks"
cleanup_text build_cache = codes "build-cache"

-- The members of `api`.
pub data DockerCall : Type 0 where
  containers : DockerCall
  container_action : Text → ContainerAction → DockerCall
  images : DockerCall
  pull_image : Text → DockerCall
  remove_image : Text → Bool → DockerCall
  volumes : DockerCall
  remove_volume : Text → DockerCall
  networks : DockerCall
  cleanup_preview : DockerCall
  cleanup : CleanupKind → DockerCall
  git_providers : DockerCall
  rename_git_provider : Text → Text → DockerCall
  delete_git_provider : Text → DockerCall
  git_repositories : Text → DockerCall
  git_branches : Text → Text → Text → DockerCall
  create_github_provider : GitHubApp → DockerCall
  save_gitlab_provider : Option Text → GitLabApp → DockerCall
  save_gitea_provider : Option Text → GiteaApp → DockerCall
  save_bitbucket_provider : Option Text → BitbucketApp → DockerCall

-- The type that `request` is told to answer with.
abbrev pub DockerAnswer : DockerCall → Type 0
DockerAnswer containers = List ContainerSummary
DockerAnswer (container_action _ _) = Done
DockerAnswer images = List ImageSummary
DockerAnswer (pull_image _) = PullOutput
DockerAnswer (remove_image _ _) = Done
DockerAnswer volumes = List VolumeSummary
DockerAnswer (remove_volume _) = Done
DockerAnswer networks = List NetworkSummary
DockerAnswer cleanup_preview = CleanupPreview
DockerAnswer (cleanup _) = CleanupResult
DockerAnswer git_providers = GitProviders
DockerAnswer (rename_git_provider _ _) = Done
DockerAnswer (delete_git_provider _) = Done
DockerAnswer (git_repositories _) = Repositories
DockerAnswer (git_branches _ _ _) = Branches
DockerAnswer (create_github_provider _) = GitHubStart
DockerAnswer (save_gitlab_provider _ _) = GitStart
DockerAnswer (save_gitea_provider _ _) = GitStart
DockerAnswer (save_bitbucket_provider _ _) = GitSaved

-- What is sent as JSON.
abbrev pub DockerSent : DockerCall → Type 0
DockerSent (pull_image _) = ImageReference
DockerSent (rename_git_provider _ _) = NewName
DockerSent (create_github_provider _) = GitHubApp
DockerSent (save_gitlab_provider _ _) = GitLabApp
DockerSent (save_gitea_provider _ _) = GiteaApp
DockerSent (save_bitbucket_provider _ _) = BitbucketApp
DockerSent _ = Ignored

unfoldable pub docker_call : Browser → (c : DockerCall) → Call (DockerSent c)
docker_call b containers = bare get (codes "/api/docker/containers")
docker_call b (container_action id action) =
    bare post (codes "/api/docker/containers/" ++ id ++ codes "/" ++ (container_action_text action))
docker_call b images = bare get (codes "/api/docker/images")
docker_call b (pull_image reference) =
    sends post (codes "/api/docker/images/pull") (record { reference = reference })
docker_call b (remove_image id force) =
    bare delete (
      codes "/api/docker/images/"
      ++ (b.encode_component id)
      ++ codes "?force="
      ++ (flag_text force))
docker_call b volumes = bare get (codes "/api/docker/volumes")
docker_call b (remove_volume name) =
    bare delete (codes "/api/docker/volumes/" ++ (b.encode_component name) ++ codes "?confirm=true")
docker_call b networks = bare get (codes "/api/docker/networks")
docker_call b cleanup_preview = bare get (codes "/api/docker/cleanup")
docker_call b (cleanup kind) = bare post (codes "/api/docker/cleanup/" ++ (cleanup_text kind))
docker_call b git_providers = bare get (codes "/api/git-providers")
docker_call b (rename_git_provider id name) =
    sends patch (codes "/api/git-providers/" ++ id) (record { name = name })
docker_call b (delete_git_provider id) = bare delete (codes "/api/git-providers/" ++ id)
docker_call b (git_repositories id) =
    bare get (codes "/api/git-providers/" ++ id ++ codes "/repositories")
docker_call b (git_branches id owner repository) = bare get (
    codes "/api/git-providers/"
    ++ id
    ++ codes "/branches?owner="
    ++ (b.encode_component owner)
    ++ codes "&repository="
    ++ (b.encode_component repository))
docker_call b (create_github_provider body) = sends post (codes "/api/git-providers/github") body
docker_call b (save_gitlab_provider id body) =
    sends (save_method id) (codes "/api/git-providers" ++ (saved id) ++ codes "/gitlab") body
docker_call b (save_gitea_provider id body) =
    sends (save_method id) (codes "/api/git-providers" ++ (saved id) ++ codes "/gitea") body
docker_call b (save_bitbucket_provider id body) =
    sends (save_method id) (codes "/api/git-providers" ++ (saved id) ++ codes "/bitbucket") body
