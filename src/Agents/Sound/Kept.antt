-- ===== src/Agents/Sound/Kept.antt =====
-- The invariant of the tables of agent identities, after any steps.
use mathlib.Core.List.{append-nil}
use realmroot.Prelude.{
  Reaches, ℕ, String, Bool, true, false, ◌||◌, List, [], ◌∷◌, ◌++◌, map, any, all, ◌≡◌, refl, arith,
  subst, ◌∙◌, no_clash, no_clash-snoc, no_clash-map, any-append, any-map, all-append, all_imp,
  all-map, all-cong, any-cong, ap,
}
use realmroot.Agents.{AgentIdentityRecord, AgentIdentityBinding, AgentRecord, AgentState}
use realmroot.Agents.Store.{is_taken_by, is_bound_by}
use realmroot.Agents.Store.Writes.{
  claim_row, revoke_row, revoke_agent, deactivate_row, activate_row, delete_row,
}
use realmroot.Agents.Steps.{is_agent_of, is_owned, is_owned_binding, Step, Reach, IsSound}
use realmroot.Agents.Sound.{
  is_taken_by_sym, is_bound_by_sym, taken-deactivate, taken-activate, taken-delete, bound-revoke,
  no_clash-claim, agent-revoke, binding-revoke, owned-deactivate, owned-activate, owned-delete,
  owned-claim,
}

-- Writes that keep the ids and the owners
owned-map :
    (agents : List AgentRecord) (f : AgentIdentityRecord → AgentIdentityRecord)
    (identities : List AgentIdentityRecord) (bindings : List AgentIdentityBinding)
    → ((aid pid : String) (x : AgentIdentityRecord)
        → is_owned agents aid pid (f x) ≡ is_owned agents aid pid x)
    → all (is_owned_binding agents (map f identities)) bindings
      ≡ all (is_owned_binding agents identities) bindings
owned-map agents f identities bindings h =
    all-cong (is_owned_binding agents (map f identities)) (is_owned_binding agents identities)
      bindings
      (λ row.
        any-map (is_owned agents row.agent_identity_id row.protocol_agent_id) f identities
          (h row.agent_identity_id row.protocol_agent_id))

owned-revoke :
    (ids : List String) (now : ℕ) (agents : List AgentRecord)
    (identities : List AgentIdentityRecord) (bindings : List AgentIdentityBinding)
    → all (is_owned_binding (map (revoke_agent ids now) agents) identities) bindings
      ≡ all (is_owned_binding agents identities) bindings
owned-revoke ids now agents identities bindings =
    all-cong (is_owned_binding (map (revoke_agent ids now) agents) identities)
      (is_owned_binding agents identities) bindings
      (λ row.
        any-cong
          (is_owned (map (revoke_agent ids now) agents) row.agent_identity_id row.protocol_agent_id)
          (is_owned agents row.agent_identity_id row.protocol_agent_id) identities
          (λ identity.
            rw
              (any-map (is_agent_of identity.owner_user_id row.protocol_agent_id)
                (revoke_agent ids now) agents
                (agent-revoke identity.owner_user_id row.protocol_agent_id ids now))
              refl))

-- More identities and more agents
owned-more :
    (agents more_agents : List AgentRecord) (identities more : List AgentIdentityRecord)
    (bindings : List AgentIdentityBinding)
    → all (is_owned_binding agents identities) bindings ≡ true
    → all (is_owned_binding (agents ++ more_agents) (identities ++ more)) bindings ≡ true
owned-more agents more_agents identities more bindings h =
    all_imp (is_owned_binding agents identities)
      (is_owned_binding (agents ++ more_agents) (identities ++ more)) bindings
      (λ row k. ground (
        arith,
        any-append (is_owned (agents ++ more_agents) row.agent_identity_id row.protocol_agent_id)
            identities more,
        any_imp row identities k,
      ))
      h
  where
    any_imp :
        (row : AgentIdentityBinding) (xs : List AgentIdentityRecord)
        → any (is_owned agents row.agent_identity_id row.protocol_agent_id) xs ≡ true
        → any (is_owned (agents ++ more_agents) row.agent_identity_id row.protocol_agent_id) xs
          ≡ true
    any_imp row [] k = k
    any_imp row (x ∷ xs) k = ground (
      arith,
      any-append (is_agent_of x.owner_user_id row.protocol_agent_id) agents more_agents,
      any_imp row xs,
    )

tables :
    (s : AgentState) {identities : List AgentIdentityRecord} {bindings : List AgentIdentityBinding}
    {agents : List AgentRecord}
    → s.identities ≡ identities
    → s.bindings ≡ bindings
    → s.agents ≡ agents
    → no_clash is_taken_by identities ≡ true
    → no_clash is_bound_by bindings ≡ true
    → all (is_owned_binding agents identities) bindings ≡ true
    → IsSound s
tables s {identities} {bindings} {agents} i b a h k o = record {
  named_once = ap (no_clash is_taken_by) i ∙ h;
  bound_once = ap (no_clash is_bound_by) b ∙ k;
  owned =
      ap (λ xs. all (is_owned_binding xs s.identities) s.bindings) a
      ∙ (ap (λ xs. all (is_owned_binding agents xs) s.bindings) i
          ∙ (ap (all (is_owned_binding agents identities)) b ∙ o));
}

bound_revoked :
    (id : String) (now : ℕ) (s : AgentState)
    → IsSound s
    → no_clash is_bound_by (map (revoke_row id now) s.bindings) ≡ true
bound_revoked id now s sound =
    no_clash-map is_bound_by (revoke_row id now) s.bindings (bound-revoke id now) ∙ sound.bound_once

owned_revoked :
    (id : String) (ids : List String) (now : ℕ) (s : AgentState)
    → IsSound s
    → all
        (is_owned_binding (map (revoke_agent ids now) s.agents) s.identities)
        (map (revoke_row id now) s.bindings)
      ≡ true
owned_revoked id ids now s sound =
    all-map (is_owned_binding (map (revoke_agent ids now) s.agents) s.identities)
      (revoke_row id now) s.bindings
      (binding-revoke (map (revoke_agent ids now) s.agents) s.identities id now)
    ∙ (owned-revoke ids now s.agents s.identities s.bindings ∙ sound.owned)

owned-identities :
    (agents : List AgentRecord) (identities more : List AgentIdentityRecord)
    (bindings : List AgentIdentityBinding)
    → all (is_owned_binding agents identities) bindings ≡ true
    → all (is_owned_binding agents (identities ++ more)) bindings ≡ true
owned-identities agents identities more bindings h =
    subst (λ xs. all (is_owned_binding xs (identities ++ more)) bindings ≡ true) (append-nil agents)
      (owned-more agents [] identities more bindings h)

or_true_right : (b : Bool) → (b || (true || false)) ≡ true
or_true_right true = refl
or_true_right false = refl

owned_last :
    (s : AgentState) (identity : AgentIdentityRecord) (binding : AgentIdentityBinding)
    → is_owned s.agents binding.agent_identity_id binding.protocol_agent_id identity ≡ true
    → is_owned_binding s.agents (s.identities ++ identity ∷ []) binding ≡ true
owned_last s identity binding owner =
    any-append (is_owned s.agents binding.agent_identity_id binding.protocol_agent_id) s.identities
      (identity ∷ [])
    ∙ rw owner (or_true_right _)

pub Step-IsSound : (s t : AgentState) → Step s t → IsSound s → IsSound t
Step-IsSound s t (Step.registered agent fresh i b a) sound =
    tables t i b a sound.named_once sound.bound_once (
      subst (λ xs. all (is_owned_binding (s.agents ++ agent ∷ []) xs) s.bindings ≡ true)
        (append-nil s.identities)
        (owned-more s.agents (agent ∷ []) s.identities [] s.bindings sound.owned))
Step-IsSound s t (Step.enrolled identity binding kept taken bound owner i b a) sound =
    tables t i b a
      (no_clash-snoc is_taken_by s.identities identity (λ x. is_taken_by_sym x identity)
        sound.named_once taken)
      (no_clash-snoc is_bound_by s.bindings binding (λ x. is_bound_by_sym x binding)
        sound.bound_once bound)
      (all-append (is_owned_binding s.agents (s.identities ++ identity ∷ [])) s.bindings
          (binding ∷ [])
        ∙ rw
            (
              owned-identities s.agents s.identities (identity ∷ []) s.bindings sound.owned,
              owned_last s identity binding owner,
            )
            refl)
Step-IsSound s t (Step.installed binding bound owner i b a) sound =
    tables t i b a sound.named_once
      (no_clash-snoc is_bound_by s.bindings binding (λ x. is_bound_by_sym x binding)
        sound.bound_once bound)
      (all-append (is_owned_binding s.agents s.identities) s.bindings (binding ∷ [])
        ∙ rw (sound.owned, owner) refl)
Step-IsSound s t (Step.claimed id username name runtime now free i b a) sound =
    tables t i b a (no_clash-claim id username name runtime now s.identities sound.named_once free)
      sound.bound_once
      (owned-map s.agents (claim_row id username name runtime now) s.identities s.bindings
          (λ aid pid x. owned-claim s.agents aid pid id now x username name runtime)
        ∙ sound.owned)
Step-IsSound s t (Step.revoked id ids now i b a) sound =
    tables t i b a sound.named_once (bound_revoked id now s sound)
      (owned_revoked id ids now s sound)
Step-IsSound s t (Step.deactivated id now i b a) sound =
    tables t i b a
      (no_clash-map is_taken_by (deactivate_row id now) s.identities (taken-deactivate id now)
        ∙ sound.named_once)
      sound.bound_once
      (owned-map s.agents (deactivate_row id now) s.identities s.bindings
          (λ aid pid x. owned-deactivate s.agents aid pid id now x)
        ∙ sound.owned)
Step-IsSound s t (Step.recovered id ids now i b a) sound =
    tables t i b a
      (no_clash-map is_taken_by (deactivate_row id now) s.identities (taken-deactivate id now)
        ∙ sound.named_once)
      (bound_revoked id now s sound)
      (owned-map (map (revoke_agent ids now) s.agents) (deactivate_row id now) s.identities
          (map (revoke_row id now) s.bindings)
          (λ aid pid x. owned-deactivate (map (revoke_agent ids now) s.agents) aid pid id now x)
        ∙ owned_revoked id ids now s sound)
Step-IsSound s t (Step.activated id now i b a) sound =
    tables t i b a
      (no_clash-map is_taken_by (activate_row id now) s.identities (taken-activate id now)
        ∙ sound.named_once)
      sound.bound_once
      (owned-map s.agents (activate_row id now) s.identities s.bindings
          (λ aid pid x. owned-activate s.agents aid pid id now x)
        ∙ sound.owned)
Step-IsSound s t (Step.deleted id ids now i b a) sound =
    tables t i b a
      (no_clash-map is_taken_by (delete_row id now) s.identities (taken-delete id now)
        ∙ sound.named_once)
      (bound_revoked id now s sound)
      (owned-map (map (revoke_agent ids now) s.agents) (delete_row id now) s.identities
          (map (revoke_row id now) s.bindings)
          (λ aid pid x. owned-delete (map (revoke_agent ids now) s.agents) aid pid id now x)
        ∙ owned_revoked id ids now s sound)
Step-IsSound s t (Step.unchanged i b a) sound =
    tables t i b a sound.named_once sound.bound_once sound.owned

IsSound-Reach : (s t : AgentState) → Reach s t → IsSound s → IsSound t
IsSound-Reach s t Reaches.here sound = sound
IsSound-Reach s t (Reaches.step {t = u} r h) sound = Step-IsSound u t h (IsSound-Reach s u r sound)

-- Starting from empty tables, whatever requests and registrations follow in whatever order: ids,
-- subjects of an issuer and usernames are those of one identity each, deleted ones included, a protocol
-- agent is of one binding, and the owner of an identity is the user of the protocol agents bound to it.
pub reached-IsSound :
    (s t : AgentState) → s.identities ≡ [] → s.bindings ≡ [] → Reach s t → IsSound t
reached-IsSound s t i b r = IsSound-Reach s t r (tables s i b refl refl refl refl)
