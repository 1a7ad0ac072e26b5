-- ===== src/Trust/Credential/Tests.antt =====
-- Runs of the credential verifier, and its theorems at concrete inputs.
use marga.Prelude.{◌≡◌, ◌↔◌, refl, String, true, false, some, none, List, [], ◌∷◌, string_eq}
use marga.Prelude.Dict
use marga.Trust.RateLimiter.{high, authority}
use marga.Trust.Credential.{
  CredentialRecord, Verifier, is_expired, register, load_from_dict, verify_identity, has_role,
  verify_emergency,
}
use marga.Trust.Credential.Privileges.{Holds, verify_emergency_iff, last_of, prefer, level_of}

program : Unit {0}
unfolding Dict.get Dict.put is_expired register load_from_dict verify_identity has_role
    verify_emergency last_of prefer level_of
program = tt

abbrev records : List CredentialRecord
records =
    record {
      sender_id = "amb";
      trust_level = high;
      emergency_roles = "ambulance" ∷ [];
      expires_at = some 100;
    }
    ∷ record { sender_id = "rsu"; trust_level = authority; emergency_roles = []; expires_at = none }
    ∷ []

abbrev verifier : Verifier
verifier = load_from_dict records []

grants : verify_emergency "amb" (some "ambulance") 99 verifier ≡ true
unfolding program
grants = refl

expires : verify_emergency "amb" (some "ambulance") 100 verifier ≡ false
unfolding program
expires = refl

verify_emergency_iff_example :
    (verify_emergency "amb" (some "ambulance") 99 (load_from_dict records []) ≡ true) ↔ (
      (role : String) × (some "ambulance" ≡ some role)
      × Holds (prefer (last_of "amb" records) (Dict.get {K = String} "amb" [])) role 99)
verify_emergency_iff_example = verify_emergency_iff "amb" (some "ambulance") 99 records []

is_authority : verify_identity "rsu" 5 verifier ≡ authority
unfolding program
is_authority = refl
