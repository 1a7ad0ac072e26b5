-- ===== src/Trust/Credential/Privileges.antt =====
-- Who gets a privilege from services/trust/marga_trust/credential.py.
use mathlib.Core.Path.{subst}
use mathlib.Core.List.{Memᴰ}
use text.Mathlib.TextEquality.{eq_iff}
use marga.Prelude.{
  Bool-cases, sym, leb, ℕ, ◌<◌, ◌≡◌, refl, ◌↔◌, inl, inr, String, true, false, Option, none, some,
  List, [], ◌∷◌, arith, if◌then◌else◌, ◌==◌, string_eq, Option-cases,
}
use marga.Prelude.Dict
use marga.Trust.RateLimiter.{TrustLevel, untrusted}
use marga.Trust.Credential.{
  CredentialRecord, is_expired, Verifier, register, load_from_dict, verify_identity, has_role,
  verify_emergency,
}

-- The last record of a list for a sender.
unfoldable pub last_of : String → List CredentialRecord → Option CredentialRecord
last_of s [] = none
last_of s (r ∷ rs) = elim (last_of s rs) [
  | some x ↦ some x
  | none ↦ if r.sender_id == s then some r else none
]

unfoldable pub prefer {ℓ} : {A : Type ℓ} → Option A → Option A → Option A
prefer none o = o
prefer (some x) o = some x

load-last :
    (s : String) (rs : List CredentialRecord) (v : Verifier)
    → Dict.get s (load_from_dict rs v) ≡ prefer (last_of s rs) (Dict.get s v)
unfolding load_from_dict register last_of prefer
load-last s [] v = refl
load-last s (r ∷ rs) v =
    ground (arith, load-last s rs (register r v), Dict.get-put r.sender_id s r v)

-- The credential has no end, or its end is still to come.
abbrev pub IsCurrent : ℕ → Option ℕ → Type 0
IsCurrent now none = Unit
IsCurrent now (some t) = now < t

-- The credential that counts, of a sender, is current and names the role.
pub record Holds (counts : Option CredentialRecord) (role : String) (now : ℕ) : Type 0 where
  pub credential : CredentialRecord
  pub registered : counts ≡ some credential
  pub current : IsCurrent now credential.expires_at
  pub granted : Memᴰ role credential.emergency_roles

has_role-Mem : (role : String) (roles : List String) → has_role role roles ≡ true → Memᴰ role roles
unfolding has_role
has_role-Mem role [] e = absurd (ground arith)
has_role-Mem role (x ∷ xs) e = elim (Bool-cases (x == role)) [
  | inl same ↦ Memᴰ.head (sym ((eq_iff x role).0 same))
  | inr other ↦ Memᴰ.tail (has_role-Mem role xs (ground (arith, other, e)))
]

Mem-has_role : (role : String) (roles : List String) → Memᴰ role roles → has_role role roles ≡ true
unfolding has_role
Mem-has_role role [] m = elim m [ ]
Mem-has_role role (x ∷ xs) (Memᴰ.head e) = rw ((eq_iff x role).1 (sym e)) refl
Mem-has_role role (x ∷ xs) (Memᴰ.tail m) = ground (arith, Mem-has_role role xs m)

end-IsCurrent :
    (now : ℕ) (end : Option ℕ)
    → ((elim end [ none ↦ false | some t ↦ leb t now ]) ≡ false) ↔ IsCurrent now end
end-IsCurrent now none = (λ e. tt, λ c. refl)
end-IsCurrent now (some t) = ground arith

is_expired-IsCurrent :
    (now : ℕ) (r : CredentialRecord) → (is_expired now r ≡ false) ↔ IsCurrent now r.expires_at
unfolding is_expired
is_expired-IsCurrent now r = end-IsCurrent now r.expires_at

-- A role is confirmed by the record that counts.
verify_emergency-Holds :
    (sender : String) (ref : Option String) (now : ℕ) (v : Verifier)
    → (verify_emergency sender ref now v ≡ true)
      ↔ ((role : String) × (ref ≡ some role) × Holds (Dict.get sender v) role now)
unfolding verify_emergency
verify_emergency-Holds sender ref now v = (forward ref, backward)
  where
    forward :
        (ref : Option String)
        → verify_emergency sender ref now v ≡ true
        → (role : String) × (ref ≡ some role) × Holds (Dict.get sender v) role now
    forward none e = absurd (ground arith)
    forward (some role) e = elim (Option-cases (Dict.get sender v)) [
      | inl n ↦ absurd (ground arith)
      | inr (r, found) ↦ (
        role,
        refl,
        record {
          credential = r;
          registered = found;
          current = (is_expired-IsCurrent now r).0 (ground arith);
          granted = has_role-Mem role r.emergency_roles (ground arith);
        },
      )
    ]

    backward :
        ((role : String) × (ref ≡ some role) × Holds (Dict.get sender v) role now)
        → verify_emergency sender ref now v ≡ true
    backward (role, e, h) =
        rw
          (
            e,
            h.registered,
            (is_expired-IsCurrent now h.credential).1 h.current,
            Mem-has_role role _ h.granted,
            verify_emergency,
          )
          refl

-- After a bulk load an emergency role is confirmed exactly when the request names it, and the record that
-- counts for the sender has it among its roles and does not end by now. The record that counts is the
-- last loaded one that names the sender, or if none does the one held before.
pub verify_emergency_iff :
    (sender : String) (ref : Option String) (now : ℕ) (rs : List CredentialRecord) (v : Verifier)
    → (verify_emergency sender ref now (load_from_dict rs v) ≡ true) ↔ (
        (role : String) × (ref ≡ some role)
        × Holds (prefer (last_of sender rs) (Dict.get sender v)) role now)
verify_emergency_iff sender ref now rs v =
    subst
      (λ o.
        (verify_emergency sender ref now (load_from_dict rs v) ≡ true)
        ↔ ((role : String) × (ref ≡ some role) × Holds o role now))
      (load-last sender rs v) (verify_emergency-Holds sender ref now (load_from_dict rs v))

-- The level that a current credential gives; no credential, or an expired one, gives `untrusted`.
unfoldable pub level_of : ℕ → Option CredentialRecord → TrustLevel
level_of now none = untrusted
level_of now (some r) = if is_expired now r then untrusted else r.trust_level

-- After a bulk load a sender has the level of the last loaded record that names him, or if none does
-- of the one he had, and `untrusted` where that record has expired or there is none.
pub verify_identity-load :
    (s : String) (now : ℕ) (rs : List CredentialRecord) (v : Verifier)
    → verify_identity s now (load_from_dict rs v)
      ≡ level_of now (prefer (last_of s rs) (Dict.get s v))
unfolding verify_identity level_of
verify_identity-load s now rs v = ground (arith, load-last s rs v)
