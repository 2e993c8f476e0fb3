-- ===== src/Api/Types/Access.antt =====
-- The types of apps/web/src/lib/api.ts for git hosts, registries, tokens and catalogs.
use vexdock.Base.{Bool, Option, List}
use vexdock.Text.{Text}
use vexdock.Api.Call.{Number}
use vexdock.Access.{ProjectGrant}
use vexdock.Api.Types.Projects.{CertificateSource}

pub data GitProviderType : Type 0 where
  github gitlab bitbucket gitea : GitProviderType

pub record GitHubDetail : Type 0 where
  pub github_app_name : Text
  pub github_app_id : Text
  pub github_client_id : Text
  pub github_installation_id : Text
  pub github_url : Text

pub record GitLabDetail : Type 0 where
  pub gitlab_url : Text
  pub application_id : Text
  pub redirect_uri : Text
  pub group_name : Text
  pub expires_at : Number

pub record BitbucketDetail : Type 0 where
  pub bitbucket_username : Text
  pub bitbucket_email : Text
  pub bitbucket_workspace_name : Text

pub record GiteaDetail : Type 0 where
  pub gitea_url : Text
  pub redirect_uri : Text
  pub client_id : Text
  pub gitea_username : Text
  pub organization_name : Text
  pub scopes : Text
  pub expires_at : Number

pub record GitProvider : Type 0 where
  pub git_provider_id : Text
  pub name : Text
  pub provider_type : GitProviderType
  pub created_at : Text
  pub connected : Bool
  pub webhook_url : Option Text
  pub install_url : Option Text
  pub github : Option GitHubDetail
  pub gitlab : Option GitLabDetail
  pub bitbucket : Option BitbucketDetail
  pub gitea : Option GiteaDetail

pub record GitRepository : Type 0 where
  pub name : Text
  pub owner : Text
  pub url : Text

pub record Registry : Type 0 where
  pub id : Text
  pub name : Text
  pub url : Text
  pub username : Text
  pub created_at : Text

pub record ApiToken : Type 0 where
  pub id : Text
  pub user_id : Text
  pub name : Text
  pub prefix : Text
  pub admin : Bool
  pub projects : List ProjectGrant
  pub client_id : Text
  pub last_used_at : Text
  pub created_at : Text

pub record OAuthAuthorization : Type 0 where
  pub client_id : Text
  pub redirect_uri : Text
  pub response_type : Text
  pub code_challenge : Text
  pub code_challenge_method : Text
  pub state : Text
  pub resource : Text

pub record Engine : Type 0 where
  pub slug : Text
  pub name : Text
  pub repository : Text
  pub default_tag : Text
  pub versions : List Text
  pub port : Number
  pub scheme : Text
  pub database_var : Text
  pub user_var : Text
  pub password_var : Text

pub record TemplateService : Type 0 where
  pub name : Text

pub record TemplateDomain : Type 0 where
  pub service : Text
  pub port : Number

pub record Template : Type 0 where
  pub slug : Text
  pub name : Text
  pub description : Text
  pub tags : List Text
  pub services : List TemplateService
  pub domain : Option TemplateDomain

pub data CertificateStatus : Type 0 where
  pending issued failed : CertificateStatus

pub record Certificate : Type 0 where
  pub id : Text
  pub domain_id : Text
  pub hostname : Text
  pub issuer : Text
  pub issued_at : Text
  pub expires_at : Text
  pub last_renewed_at : Text
  pub status : CertificateStatus
  pub last_error : Text
  pub source : CertificateSource
