-- ===== src/Security/Types.antt =====
-- src/bas/security/Types.{hpp,cpp}: the enumerations of the security code, each with its text form.
use bas_cpp.Prelude.{ℕ, ◌≡◌, refl, Bool, true, false, if◌then◌else◌, Bytes, codes, str_eq}

pub data IdentityState : Type 0 where
  unknown active expired revoked logged_out : IdentityState

pub data IdentitySource : Type 0 where
  unknown direct derived login auto system : IdentitySource

pub data LoginStatus : Type 0 where
  unknown success need_credential need_interaction failed unsupported : LoginStatus

pub data AccessEffect : Type 0 where
  unknown allow deny : AccessEffect

-- IdentityState::str
pub identity_state_str : IdentityState → Bytes
identity_state_str IdentityState.active = codes "active"
identity_state_str IdentityState.expired = codes "expired"
identity_state_str IdentityState.revoked = codes "revoked"
identity_state_str IdentityState.logged_out = codes "logged_out"
identity_state_str IdentityState.unknown = codes "unknown"

-- IdentityState::fromString
pub identity_state_from_string : Bytes → IdentityState
identity_state_from_string s =
    if str_eq s (codes "active")
    then IdentityState.active
    else if str_eq s (codes "expired")
    then IdentityState.expired
    else if str_eq s (codes "revoked")
    then IdentityState.revoked
    else if str_eq s (codes "logged_out")
    then IdentityState.logged_out
    else IdentityState.unknown

-- IdentitySource::str
pub identity_source_str : IdentitySource → Bytes
identity_source_str IdentitySource.direct = codes "direct"
identity_source_str IdentitySource.derived = codes "derived"
identity_source_str IdentitySource.login = codes "login"
identity_source_str IdentitySource.auto = codes "auto"
identity_source_str IdentitySource.system = codes "system"
identity_source_str IdentitySource.unknown = codes "unknown"

-- IdentitySource::fromString
pub identity_source_from_string : Bytes → IdentitySource
identity_source_from_string s =
    if str_eq s (codes "direct")
    then IdentitySource.direct
    else if str_eq s (codes "derived")
    then IdentitySource.derived
    else if str_eq s (codes "login")
    then IdentitySource.login
    else if str_eq s (codes "auto")
    then IdentitySource.auto
    else if str_eq s (codes "system")
    then IdentitySource.system
    else IdentitySource.unknown

-- LoginStatus::str
pub login_status_str : LoginStatus → Bytes
login_status_str LoginStatus.success = codes "success"
login_status_str LoginStatus.need_credential = codes "need_credential"
login_status_str LoginStatus.need_interaction = codes "need_interaction"
login_status_str LoginStatus.failed = codes "failed"
login_status_str LoginStatus.unsupported = codes "unsupported"
login_status_str LoginStatus.unknown = codes "unknown"

-- LoginStatus::fromString
pub login_status_from_string : Bytes → LoginStatus
login_status_from_string s =
    if str_eq s (codes "success")
    then LoginStatus.success
    else if str_eq s (codes "need_credential")
    then LoginStatus.need_credential
    else if str_eq s (codes "need_interaction")
    then LoginStatus.need_interaction
    else if str_eq s (codes "failed")
    then LoginStatus.failed
    else if str_eq s (codes "unsupported")
    then LoginStatus.unsupported
    else LoginStatus.unknown

-- AccessEffect::str
pub access_effect_str : AccessEffect → Bytes
access_effect_str AccessEffect.allow = codes "allow"
access_effect_str AccessEffect.deny = codes "deny"
access_effect_str AccessEffect.unknown = codes "unknown"

-- AccessEffect::fromString
pub access_effect_from_string : Bytes → AccessEffect
access_effect_from_string s =
    if str_eq s (codes "allow")
    then AccessEffect.allow
    else if str_eq s (codes "deny")
    then AccessEffect.deny
    else AccessEffect.unknown

-- IdentitySource::priority
unfoldable pub priority : IdentitySource → ℕ
priority IdentitySource.direct = 4
priority IdentitySource.login = 4
priority IdentitySource.derived = 3
priority IdentitySource.auto = 2
priority IdentitySource.system = 1
priority IdentitySource.unknown = 0

abbrev pub is_allow : AccessEffect → Bool
is_allow AccessEffect.allow = true
is_allow _ = false

abbrev pub is_deny : AccessEffect → Bool
is_deny AccessEffect.deny = true
is_deny _ = false

abbrev pub is_active_state : IdentityState → Bool
is_active_state IdentityState.active = true
is_active_state _ = false

identity_state_round_trip :
    (v : IdentityState) → identity_state_from_string (identity_state_str v) ≡ v
unfolding identity_state_from_string identity_state_str
identity_state_round_trip IdentityState.active = refl
identity_state_round_trip IdentityState.expired = refl
identity_state_round_trip IdentityState.revoked = refl
identity_state_round_trip IdentityState.logged_out = refl
identity_state_round_trip IdentityState.unknown = refl

identity_source_round_trip :
    (v : IdentitySource) → identity_source_from_string (identity_source_str v) ≡ v
unfolding identity_source_from_string identity_source_str
identity_source_round_trip IdentitySource.direct = refl
identity_source_round_trip IdentitySource.derived = refl
identity_source_round_trip IdentitySource.login = refl
identity_source_round_trip IdentitySource.auto = refl
identity_source_round_trip IdentitySource.system = refl
identity_source_round_trip IdentitySource.unknown = refl

login_status_round_trip : (v : LoginStatus) → login_status_from_string (login_status_str v) ≡ v
unfolding login_status_from_string login_status_str
login_status_round_trip LoginStatus.success = refl
login_status_round_trip LoginStatus.need_credential = refl
login_status_round_trip LoginStatus.need_interaction = refl
login_status_round_trip LoginStatus.failed = refl
login_status_round_trip LoginStatus.unsupported = refl
login_status_round_trip LoginStatus.unknown = refl

access_effect_round_trip : (v : AccessEffect) → access_effect_from_string (access_effect_str v) ≡ v
unfolding access_effect_from_string access_effect_str
access_effect_round_trip AccessEffect.allow = refl
access_effect_round_trip AccessEffect.deny = refl
access_effect_round_trip AccessEffect.unknown = refl

-- Each of the four enumerations is read back from its text form.
pub enumerations_round_trip :
    ((v : IdentityState) → identity_state_from_string (identity_state_str v) ≡ v)
    × ((v : IdentitySource) → identity_source_from_string (identity_source_str v) ≡ v)
    × ((v : LoginStatus) → login_status_from_string (login_status_str v) ≡ v)
    × ((v : AccessEffect) → access_effect_from_string (access_effect_str v) ≡ v)
enumerations_round_trip = (
  identity_state_round_trip, identity_source_round_trip, login_status_round_trip,
  access_effect_round_trip,
)
