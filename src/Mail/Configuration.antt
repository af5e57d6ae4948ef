-- ===== src/Mail/Configuration.antt =====
-- apps/api/src/modules/mail/mail-configuration-resolver.service.ts and mail-environment-guard.ts:
-- which mailbox a message may be sent through.
pub mod Usable
use crm_nusrv.Base.{
  Text, codes, ℕ, Bool, true, false, not, ◌&&◌, ◌||◌, Option, none, some, String, Table, find_first,
  find, str_eq, ltb, ◌==◌, if◌then◌else◌,
}
use crm_nusrv.Store.Enums.{IntegrationEnvironment}
use crm_nusrv.Store.Rows.{MailConfiguration}

pub data UnusableReason : Type 0 where
  billing_entity_override_disabled no_configuration global_disabled : UnusableReason
  environment_mismatch outbound_send_disabled outbound_send_cutover_not_reached : UnusableReason
  pinned_configuration_missing pinned_configuration_disabled : UnusableReason

abbrev pub unusable_text : UnusableReason → Text
unusable_text billing_entity_override_disabled = codes "BILLING_ENTITY_OVERRIDE_DISABLED"
unusable_text no_configuration = codes "NO_CONFIGURATION"
unusable_text global_disabled = codes "GLOBAL_DISABLED"
unusable_text environment_mismatch = codes "ENVIRONMENT_MISMATCH"
unusable_text outbound_send_disabled = codes "OUTBOUND_SEND_DISABLED"
unusable_text outbound_send_cutover_not_reached = codes "OUTBOUND_SEND_CUTOVER_NOT_REACHED"
unusable_text pinned_configuration_missing = codes "PINNED_CONFIGURATION_MISSING"
unusable_text pinned_configuration_disabled = codes "PINNED_CONFIGURATION_DISABLED"

-- A mailbox with its id.
abbrev pub Mailbox : Type 0
Mailbox = ℕ × MailConfiguration

pub data Resolution : Type 0 where
  usable : Mailbox → Resolution
  unusable : UnusableReason → Resolution

-- The environment variable `NODE_ENV`, the clock, and `ResolveOutboundOptions`.
pub record Setting : Type 0 where
  pub node_env : Option String
  pub now : ℕ
  pub check_cutover : Bool

abbrev pub env_of : Option String → String
env_of none = "development"
env_of (some e) = e

abbrev is_production : IntegrationEnvironment → Bool
is_production IntegrationEnvironment.production = true
is_production IntegrationEnvironment.sandbox = false

unfoldable pub is_environment_allowed : IntegrationEnvironment → String → Bool
is_environment_allowed configured node_env =
    if str_eq node_env "production"
    then is_production configured
    else not (is_production configured)

unfoldable pub reached : Option ℕ → ℕ → Bool
reached none now = false
reached (some cutover) now = not (ltb now cutover)

-- `applyEnvironmentGuard` and `applyOutboundGuards`
unfoldable pub apply_outbound_guards : Setting → Mailbox → Resolution
apply_outbound_guards s box =
    if not (is_environment_allowed box.1.environment (env_of s.node_env))
    then unusable environment_mismatch
    else if not box.1.outbound_send_enabled
    then unusable outbound_send_disabled
    else if s.check_cutover && not (reached box.1.outbound_send_cutover_at s.now)
    then unusable outbound_send_cutover_not_reached
    else usable box

unfoldable pub is_override : ℕ → MailConfiguration → Bool
is_override billing_entity_id c = elim c.billing_entity_id [
  | none ↦ false
  | some b ↦ b == billing_entity_id
]

unfoldable pub is_global : MailConfiguration → Bool
is_global c = elim c.billing_entity_id [ none ↦ true | some _ ↦ false ]

unfoldable pub resolve_global : Setting → Option Mailbox → Resolution
resolve_global s none = unusable no_configuration
resolve_global s (some box) =
    if not box.1.enabled then unusable global_disabled else apply_outbound_guards s box

-- `resolveForOutbound`
unfoldable pub resolve_for_outbound : Setting → ℕ → Table MailConfiguration → Resolution
unfolding resolve_global
resolve_for_outbound s billing_entity_id configs =
    elim (find_first (is_override billing_entity_id) configs) [
      | some box ↦
          if not box.1.enabled
          then unusable billing_entity_override_disabled
          else apply_outbound_guards s box
      | none ↦ resolve_global s (find_first is_global configs)
    ]

-- `resolvePinned`
unfoldable pub resolve_pinned : Setting → Option Mailbox → Resolution
resolve_pinned s none = unusable pinned_configuration_missing
resolve_pinned s (some box) =
    if not box.1.enabled
    then unusable pinned_configuration_disabled
    else apply_outbound_guards s box
