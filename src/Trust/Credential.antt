-- ===== src/Trust/Credential.antt =====
-- services/trust/marga_trust/credential.py. Times are microseconds. A credential read from a dict is
-- given here as a record; the parsing of its dates is left out.
pub mod Privileges
mod Tests
use marga.Prelude.{
  ℕ, String, Bool, true, false, not, Option, none, some, List, [], ◌∷◌, if◌then◌else◌, leb, ◌==◌,
  ◌||◌, string_eq,
}
use marga.Prelude.Dict
use marga.Prelude.Dict.{Dict}
use marga.Trust.RateLimiter.{TrustLevel, untrusted}

pub record CredentialRecord : Type 0 where
  pub sender_id : String
  pub trust_level : TrustLevel
  pub emergency_roles : List String
  pub expires_at : Option ℕ

-- `is_expired`
unfoldable pub is_expired : ℕ → CredentialRecord → Bool
is_expired now r = elim r.expires_at [ none ↦ false | some t ↦ leb t now ]

abbrev pub Verifier : Type 0
Verifier = Dict String CredentialRecord

unfoldable pub register : CredentialRecord → Verifier → Verifier
register r v = Dict.put r.sender_id r v

-- The loop of `load_from_dict`.
unfoldable pub load_from_dict : List CredentialRecord → Verifier → Verifier
load_from_dict [] v = v
load_from_dict (r ∷ rs) v = load_from_dict rs (register r v)

unfoldable pub verify_identity : String → ℕ → Verifier → TrustLevel
verify_identity sender_id now v = elim (Dict.get sender_id v) [
  | none ↦ untrusted
  | some r ↦ if is_expired now r then untrusted else r.trust_level
]

-- `credential_ref in record.emergency_roles`
unfoldable pub has_role : String → List String → Bool
has_role role [] = false
has_role role (x ∷ xs) = x == role || has_role role xs

unfoldable pub verify_emergency : String → Option String → ℕ → Verifier → Bool
verify_emergency sender_id credential_ref now v = elim credential_ref [
  | none ↦ false
  | some role ↦ elim (Dict.get sender_id v) [
    | none ↦ false
    | some r ↦
        if is_expired now r
        then false
        else if not (has_role role r.emergency_roles)
        then false
        else true
  ]
]

unfoldable pub has_sender : String → Verifier → Bool
has_sender sender_id v = elim (Dict.get sender_id v) [ none ↦ false | some _ ↦ true ]
