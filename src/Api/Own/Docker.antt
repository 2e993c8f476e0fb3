-- ===== src/Api/Own/Docker.antt =====
-- The calls of Docker.antt beside this folder, one by one.
use vexdock.Base.{refl, none, some, [], ◌∷◌}
use vexdock.Api.Browser.{Browser}
use vexdock.Api.Call.{IsOwn}
use vexdock.Api.Docker.{
  DockerCall, docker_call, containers, container_action, images, pull_image, remove_image, volumes,
  remove_volume, networks, cleanup_preview, cleanup, git_providers, rename_git_provider,
  delete_git_provider, git_repositories, git_branches, create_github_provider, save_gitlab_provider,
  save_gitea_provider, save_bitbucket_provider,
}

pub docker_call-IsOwn : (b : Browser) (c : DockerCall) → IsOwn (docker_call b c)
unfolding docker_call
docker_call-IsOwn b containers = (refl, refl)
docker_call-IsOwn b (container_action _ _) = (refl, refl)
docker_call-IsOwn b images = (refl, refl)
docker_call-IsOwn b (pull_image _) = (refl, refl)
docker_call-IsOwn b (remove_image _ _) = (refl, refl)
docker_call-IsOwn b volumes = (refl, refl)
docker_call-IsOwn b (remove_volume _) = (refl, refl)
docker_call-IsOwn b networks = (refl, refl)
docker_call-IsOwn b cleanup_preview = (refl, refl)
docker_call-IsOwn b (cleanup _) = (refl, refl)
docker_call-IsOwn b git_providers = (refl, refl)
docker_call-IsOwn b (rename_git_provider _ _) = (refl, refl)
docker_call-IsOwn b (delete_git_provider _) = (refl, refl)
docker_call-IsOwn b (git_repositories _) = (refl, refl)
docker_call-IsOwn b (git_branches _ _ _) = (refl, refl)
docker_call-IsOwn b (create_github_provider _) = (refl, refl)
docker_call-IsOwn b (save_gitlab_provider none _) = (refl, refl)
docker_call-IsOwn b (save_gitlab_provider (some []) _) = (refl, refl)
docker_call-IsOwn b (save_gitlab_provider (some (_ ∷ _)) _) = (refl, refl)
docker_call-IsOwn b (save_gitea_provider none _) = (refl, refl)
docker_call-IsOwn b (save_gitea_provider (some []) _) = (refl, refl)
docker_call-IsOwn b (save_gitea_provider (some (_ ∷ _)) _) = (refl, refl)
docker_call-IsOwn b (save_bitbucket_provider none _) = (refl, refl)
docker_call-IsOwn b (save_bitbucket_provider (some []) _) = (refl, refl)
docker_call-IsOwn b (save_bitbucket_provider (some (_ ∷ _)) _) = (refl, refl)
