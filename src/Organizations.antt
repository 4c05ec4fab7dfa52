-- ===== src/Organizations.antt =====
-- server/usecases/authorization.ts, the part on Organizations: their members, invitations and roles,
-- with the writes of server/adapters/repos/authorization.ts. The tables are those of
-- server/db/schema/authorization-tables.ts and auth-tables.ts, in the columns read or written here.
-- A handler gives the rows; `toISOString` of their times is not modelled.
pub mod Roles
pub mod Store
pub mod Guards
pub mod Handlers
pub mod Steps
pub mod Owned
pub mod Runs
pub mod Keys
pub mod Removed
pub mod Refused
use realmroot.Prelude.{ℕ, String, Bool, Option, none, some, List, ◌+◌, ◌==◌}
use realmroot.Errors.{ok}
use realmroot.Errors.Exec.{Exec}
use realmroot.Directory.{Visibility}
use realmroot.Json.{Members}

pub record OrganizationRow : Type 0 where
  pub id : String
  pub slug : String
  pub name : String
  pub display_name : Option String
  pub logo : Option String
  pub disabled : Bool
  pub disabled_reason : Option String
  pub created_at : ℕ
  pub updated_at : ℕ

-- `role` is the serialized list of roles
pub record MemberRow : Type 0 where
  pub id : String
  pub organization_id : String
  pub user_id : String
  pub role : String
  pub title : Option String
  pub created_at : ℕ
  pub updated_at : ℕ

pub record InvitationRow : Type 0 where
  pub id : String
  pub organization_id : String
  pub email : String
  pub role : String
  pub inviter_id : Option String
  pub status : String
  pub expires_at : ℕ
  pub revoked_at : Option ℕ
  pub created_at : ℕ

pub record OrganizationRoleRow : Type 0 where
  pub id : String
  pub organization_id : String
  pub role : String
  pub updated_at : ℕ

pub record ApplicationRow : Type 0 where
  pub oauth_client_id : String
  pub owner_organization_id : String
  pub visibility : Visibility

pub record RefreshTokenRow : Type 0 where
  pub client_id : String
  pub user_id : String
  pub revoked : Option ℕ

pub record SessionRow : Type 0 where
  pub user_id : String
  pub active_organization_id : Option String
  pub active_team_id : Option String

pub record TeamRow : Type 0 where
  pub id : String
  pub organization_id : String

pub record TeamMemberRow : Type 0 where
  pub team_id : String
  pub user_id : String

-- The columns of an audit event that `authorizationAudit` does not leave null
pub record AuditRow : Type 0 where
  pub id : String
  pub action : String
  pub owner_organization_id : String
  pub controller_user_id : Option String
  pub subject_issuer : Option String
  pub subject : Option String
  pub agent_identity_id : Option String
  pub host_id : Option String
  pub metadata : Members
  pub occurred_at : ℕ

-- `users` holds ids, `deleted_users` those of them whose `deleted_at` is set; `restricting` holds the ids of the owner in the rows of `api_resource` and of
-- `resource_connection_intent`, which an Organization may not leave behind. Beside them: how many ids
-- have been drawn, and the time in milliseconds, which one request reads once.
pub record OrganizationState : Type 0 where
  pub organizations : List OrganizationRow
  pub members : List MemberRow
  pub invitations : List InvitationRow
  pub roles : List OrganizationRoleRow
  pub users : List String
  pub deleted_users : List String
  pub applications : List ApplicationRow
  pub restricting : List String
  pub refresh_tokens : List RefreshTokenRow
  pub sessions : List SessionRow
  pub teams : List TeamRow
  pub team_members : List TeamMemberRow
  pub audit_events : List AuditRow
  pub drawn : ℕ
  pub clock : ℕ

-- server/domain/mutation-actor.ts
pub record ActorAgent : Type 0 where
  pub issuer : String
  pub subject : String
  pub identity_id : String
  pub host_id : String

pub record MutationActor : Type 0 where
  pub controller_user_id : Option String
  pub agent : Option ActorAgent

-- `deps.ids.generate()`: the ids are a parameter.
unfoldable pub draw_id : (ℕ → String) → Exec OrganizationState String
draw_id generate s = (ok (generate s.drawn), record s { drawn = s.drawn + 1 })

-- server/domain/platform-organization.ts
abbrev pub is_platform_organization : OrganizationRow → Bool
is_platform_organization organization = organization.slug == "realmroot"
