-- ===== src/Gate/Soundness.antt =====
-- What control/controller_authority_gate.py has checked of a command that it admits, by either method.
use audio_bodyguard_alpha.Prelude.{
  ℕ, ◌≡◌, refl, sym, ap, some_inj, ◌⊎◌, inl, inr, String, Bool, true, eq_iff, Option, none, some,
  Result, Result-cases, ok, err, Bool-cases, arith,
}
use audio_bodyguard_alpha.Prelude.Dict.{Dict}
use audio_bodyguard_alpha.Prelude.Text.{is_named}
use audio_bodyguard_alpha.Json.{Number, finite, non_finite}
use audio_bodyguard_alpha.Lease.{Lease}
use audio_bodyguard_alpha.Lease
use audio_bodyguard_alpha.Lease.Store.{Store}
use audio_bodyguard_alpha.Lease.Store
use audio_bodyguard_alpha.Lease.Store.Active.{IsActive, validate-IsActive}
use audio_bodyguard_alpha.Evidence.LeaseGrant.{LeaseGrant, canonical_lease_grant, validate_grant}
use audio_bodyguard_alpha.Evidence.Remote.{
  AtomicRequest, RemoteResult, KeyVerifier, canonical_result,
}
use audio_bodyguard_alpha.Evidence.Command.{
  Proof, CommandDecision, commanded, validate_command, validate_remote_command,
}
use audio_bodyguard_alpha.Evidence.Genuine.{
  IsGenuine, validate_grant-IsGenuine, IsAnswer, validate_result-IsAnswer,
}
use audio_bodyguard_alpha.Evidence.Bound.{IsBound, validate_proof-IsBound}
use audio_bodyguard_alpha.Gate.{
  Gate, Keys, Admission, admitted, open_gate, pass_command, is_commanded, is_expected, pass_lease,
  claimed, ask_authority, with_marks, is_granted, judge_remote, validate, validate_remote,
}
use audio_bodyguard_alpha.Gate.Watermark.{is_granted-eq, is_commanded-eq, judge_remote-accepted}
use audio_bodyguard_alpha.Gate.History.{Call, local, remote, run_call}

-- The lease that the evidence names, field by field.
pub record Names (l : Lease) (resource_id controller_id : String) (token : ℕ)
    (issued_at expires_at : Number) : Type 0 where
  pub resource : l.resource_id ≡ resource_id
  pub controller : l.controller_id ≡ controller_id
  pub fence : l.fencing_token ≡ token
  pub issued : issued_at ≡ finite l.issued_at
  pub expires : expires_at ≡ finite l.expires_at

-- No action is expected, or it is named and the proof's.
abbrev pub HasAction : Option String → Proof → Type 0
HasAction expected p =
    (expected ≡ none) ⊎ ((expected ≡ some p.action_digest) × (is_named p.action_digest ≡ true))

-- A call of `validate` shows a genuine grant, one of `validate_remote` a result that answers its request.
abbrev pub IsVouched : Keys → Call → Type 0
IsVouched keys (local grant p now expected saved) = IsGenuine keys.grant_verifiers grant now
IsVouched keys (remote q r p now expected saved) =
    (verifiers : Dict KeyVerifier) × (keys.result_verifiers ≡ some verifiers)
    × IsAnswer keys.hash verifiers q r now

-- The lease of that evidence is the active one, and has not expired.
abbrev pub HasLease : Call → Store → Type 0
HasLease (local grant p now expected saved) s =
    (l : Lease) × Names l grant.resource_id grant.controller_id grant.fencing_token grant.issued_at
      grant.expires_at
    × IsActive l now s
HasLease (remote q r p now expected saved) s =
    (l : Lease) × Names l r.resource_id r.controller_id r.fencing_token r.issued_at r.expires_at
    × IsActive l now s

-- The proof is bound to that evidence.
abbrev pub HasProof : Keys → Call → Type 0
HasProof keys (local grant p now expected saved) =
    IsBound keys.command_verifiers p (keys.hash (canonical_lease_grant grant))
      grant.controller_key_id
HasProof keys (remote q r p now expected saved) =
    IsBound keys.command_verifiers p (keys.hash (canonical_result r)) r.controller_key_id

abbrev pub IsExpected : Call → Type 0
IsExpected (local grant p now expected saved) = HasAction expected p
IsExpected (remote q r p now expected saved) = HasAction expected p

pub record IsAuthorised (keys : Keys) (c : Call) (s : Store) : Type 0 where
  pub vouched : IsVouched keys c
  pub lease : HasLease c s
  pub command : HasProof keys c
  pub action : IsExpected c

pass_lease-admitted :
    (answer : Result Lease.Decision) (rest : Gate → Result Admission × Gate) (g : Gate)
    → (pass_lease answer rest g).0 ≡ ok admitted
    → (answer ≡ ok Lease.allow) × ((rest g).0 ≡ ok admitted)
unfolding pass_lease
pass_lease-admitted (err e) rest g h = absurd (cc)
pass_lease-admitted (ok Lease.allow) rest g h = (refl, h)
pass_lease-admitted (ok Lease.stale_fence) rest g h = absurd (cc)
pass_lease-admitted (ok _) rest g h = absurd (cc)

ask_authority-admitted :
    (l : Option Lease) (now : Number) (rest : Gate → Result Admission × Gate) (g : Gate) (s : Store)
    → (ask_authority l now rest g s).0 ≡ ok admitted
    → (m : Lease) × (l ≡ some m)
      × ((Lease.Store.validate m now s).0 ≡ ok Lease.allow)
      × ((rest g).0 ≡ ok admitted)
unfolding ask_authority
ask_authority-admitted none now rest g s h = absurd (cc)
ask_authority-admitted (some m) now rest g s h =
    let (allowed, passed) = pass_lease-admitted (Lease.Store.validate m now s).0 rest g h in
    (m, refl, allowed, passed)

pass_command-admitted :
    (d : CommandDecision) (expected : Option String) (p : Proof) (r : String) (f : ℕ) (saved : Bool)
    → (g : Gate) → (pass_command d expected p r f saved g).0 ≡ ok admitted
    → (d ≡ commanded) × (is_expected expected p ≡ true)
unfolding pass_command
pass_command-admitted d expected p r f saved g h = elim (Bool-cases (is_commanded d)) [
  | inr no_command ↦ absurd (cc (rw no_command at h))
  | inl command ↦ elim (Bool-cases (is_expected expected p)) [
    | inr other ↦ absurd (cc (rw (command, other) at h))
    | inl same ↦ (is_commanded-eq d command, same)
  ]
]

claimed-Names :
    (l : Lease) (r c : String) (t : ℕ) (i e : Number)
    → claimed r c t i e ≡ some l
    → Names l r c t i e
unfolding claimed
claimed-Names l r c t (finite i) (finite e) h =
    let same = some_inj h in
    record {
      resource = ap (λ (x : Lease). x.resource_id) (sym same);
      controller = ap (λ (x : Lease). x.controller_id) (sym same);
      fence = ap (λ (x : Lease). x.fencing_token) (sym same);
      issued = ap (λ (x : Lease). finite x.issued_at) same;
      expires = ap (λ (x : Lease). finite x.expires_at) same;
    }
claimed-Names l r c t (finite i) non_finite h = absurd (cc)
claimed-Names l r c t non_finite e h = absurd (cc)

is_expected-HasAction :
    (expected : Option String) (p : Proof) → is_expected expected p ≡ true → HasAction expected p
unfolding is_expected
is_expected-HasAction none p h = inl refl
is_expected-HasAction (some e) p h =
    let same = (eq_iff p.action_digest e).0 (ground (arith, h)) in
    inr (ap some (sym same), rw same (ground (arith, h)))

-- What both methods go on to, once the evidence is accepted.
asked-admitted :
    (r c : String) (t : ℕ) (i e now : Number) (d : CommandDecision) (expected : Option String)
    (p : Proof) (saved : Bool) (g : Gate) (s : Store)
    → (ask_authority (claimed r c t i e) now (pass_command d expected p r t saved) g s).0
      ≡ ok admitted
    → ((l : Lease) × Names l r c t i e × IsActive l now s) × (d ≡ commanded) × HasAction expected p
asked-admitted r c t i e now d expected p saved g s h =
    let (l, names, allowed, passed) =
      ask_authority-admitted (claimed r c t i e) now (pass_command d expected p r t saved) g s h in
    let (command, action) = pass_command-admitted d expected p r t saved g passed in
    (
      (l, claimed-Names l r c t i e names, validate-IsActive l now s allowed),
      command,
      is_expected-HasAction expected p action,
    )

validate-IsAuthorised :
    (keys : Keys) (grant : LeaseGrant) (p : Proof) (now : Number) (expected : Option String)
    → (saved : Bool) (g : Gate) (s : Store)
    → (validate keys grant p now expected saved g s).0 ≡ ok admitted
    → IsAuthorised keys (local grant p now expected saved) s
unfolding validate with_marks validate_command
validate-IsAuthorised keys grant p now expected saved g s h = elim (Result-cases (open_gate g)) [
  | inr (e, bad) ↦ absurd (cc (rw (bad, with_marks) at h))
  | inl (marks, o) ↦
      elim (Bool-cases (is_granted (validate_grant keys.grant_verifiers grant now))) [
        | inr no_grant ↦ absurd (cc (rw (o, no_grant, with_marks) at h))
        | inl given ↦
            let (lease, command, action) =
              asked-admitted grant.resource_id grant.controller_id grant.fencing_token
                grant.issued_at grant.expires_at now _ expected p saved _ s
                (rw (o, given, with_marks) at h) in
            record {
              vouched =
                  validate_grant-IsGenuine keys.grant_verifiers grant now (is_granted-eq _ given);
              lease = lease;
              command = validate_proof-IsBound keys.command_verifiers p _ _ command;
              action = action;
            }
      ]
]

validate_remote-IsAuthorised :
    (keys : Keys) (q : AtomicRequest) (r : RemoteResult) (p : Proof) (now : Number)
    → (expected : Option String) (saved : Bool) (g : Gate) (s : Store)
    → (validate_remote keys q r p now expected saved g s).0 ≡ ok admitted
    → IsAuthorised keys (remote q r p now expected saved) s
unfolding validate_remote with_marks validate_remote_command
validate_remote-IsAuthorised keys q r p now expected saved g s h =
    elim (Result-cases (open_gate g)) [
      | inr (e, bad) ↦ absurd (cc (rw (bad, with_marks) at h))
      | inl (marks, o) ↦ elim (Bool-cases (judge_remote keys q r now)) [
        | inr no_result ↦ absurd (cc (rw (o, no_result, with_marks) at h))
        | inl given ↦
            let (verifiers, configured, accepts) = judge_remote-accepted keys q r now given in
            let (lease, command, action) =
              asked-admitted r.resource_id r.controller_id r.fencing_token r.issued_at r.expires_at
                now _ expected p saved _ s (rw (o, given, with_marks) at h) in
            record {
              vouched = (
                verifiers,
                configured,
                validate_result-IsAnswer keys.hash verifiers q r now accepts,
              );
              lease = lease;
              command = validate_proof-IsBound keys.command_verifiers p _ _ command;
              action = action;
            }
      ]
    ]

-- Either method of the gate admits a command only with evidence that is signed by a trusted issuer and in
-- its window, a grant for the one and a result that answers the request for the other; with a lease,
-- named by that evidence, that is active and unexpired; with a proof that bears the digest of that
-- evidence and is signed by a trusted key, the one that the evidence names; and with the expected action,
-- where one is expected.
pub run_call-IsAuthorised :
    (keys : Keys) (c : Call) (g : Gate) (s : Store)
    → (run_call keys c g s).0 ≡ ok admitted
    → IsAuthorised keys c s
unfolding run_call
run_call-IsAuthorised keys (local grant p now expected saved) g s h =
    validate-IsAuthorised keys grant p now expected saved g s h
run_call-IsAuthorised keys (remote q r p now expected saved) g s h =
    validate_remote-IsAuthorised keys q r p now expected saved g s h
