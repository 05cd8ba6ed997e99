-- ===== src/Lease/Store/Active.antt =====
-- What a lease is that control/active_controller_lease.py allows.
use audio_bodyguard_alpha.Prelude.{◌≡◌, refl, inl, inr, true, some, ok, Result-cases}
use audio_bodyguard_alpha.Prelude.Time.{Time, before}
use audio_bodyguard_alpha.Prelude.Dict.{get}
use audio_bodyguard_alpha.Json.{Number, finite, non_finite}
use audio_bodyguard_alpha.Lease.{Lease, Authority, allow, validate_time}
use audio_bodyguard_alpha.Lease.Store.{Store, open_state, validate}
use audio_bodyguard_alpha.Lease.Store.Fencing.{validate-allow}

-- The state opens, the lease is the one that is entered for its resource, and it has not expired.
pub record IsActive (l : Lease) (now : Number) (s : Store) : Type 0 where
  pub clock : Time
  pub authority : Authority
  pub now_finite : now ≡ finite clock
  pub opened : open_state s ≡ ok authority
  pub active : get l.resource_id authority.active ≡ some l
  pub unexpired : before clock l.expires_at ≡ true

pub validate-IsActive :
    (l : Lease) (now : Number) (s : Store) → (validate l now s).0 ≡ ok allow → IsActive l now s
unfolding validate validate_time
validate-IsActive l non_finite s h = absurd (cc)
validate-IsActive l (finite t) s h = elim (Result-cases (open_state s)) [
  | inr (e, bad) ↦ absurd (cc (rw (bad, validate) at h))
  | inl (a, o) ↦
      let (active, unexpired) = validate-allow s a l t o h in
      record {
        clock = t;
        authority = a;
        now_finite = refl;
        opened = o;
        active = active;
        unexpired = unexpired;
      }
]
