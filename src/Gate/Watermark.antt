-- ===== src/Gate/Watermark.antt =====
-- One call of control/controller_authority_gate.py and the watermarks that it leaves.
use audio_bodyguard_alpha.Prelude.{
  ℕ, ◌<◌, ◌≡◌, ◌≢◌, refl, inl, inr, String, Bool, true, false, ◌==◌, Option, none, some, [], ◌∷◌,
  Result, ok, err, arith, Bool-cases, Option-cases,
}
use audio_bodyguard_alpha.Prelude.Text.{is_named}
use audio_bodyguard_alpha.Prelude.Dict.{Dict, get, put}
use audio_bodyguard_alpha.Json.{Number}
use audio_bodyguard_alpha.Lease.{Lease, Verifier}
use audio_bodyguard_alpha.Lease
use audio_bodyguard_alpha.Lease.Store.{Store, holds}
use audio_bodyguard_alpha.Lease.Store
use audio_bodyguard_alpha.Evidence.{Hash}
use audio_bodyguard_alpha.Evidence.LeaseGrant.{LeaseGrant, GrantDecision, validate_grant, granted}
use audio_bodyguard_alpha.Evidence.Remote.{
  AtomicRequest, RemoteResult, ResultDecision, KeyVerifier, validate_result, accepted,
}
use audio_bodyguard_alpha.Evidence.Command.{
  Proof, CommandDecision, commanded, validate_proof, judge_key, validate_command,
  validate_remote_command,
}
use audio_bodyguard_alpha.Evidence.Genuine.{
  validate_grant-IsGenuine, validate_result-IsAnswer, IsAnswer-named,
}
use audio_bodyguard_alpha.Gate.Codec.{Positive, decode_marks-encode_marks}
use audio_bodyguard_alpha.Gate.{
  Gate, Mark, Keys, Admission, admitted, open_gate, commit_marks, judge_mark, is_admitted,
  pass_mark, pass_command, is_commanded, is_expected, pass_lease, ask_authority, with_marks,
  is_granted, is_accepted, judge_remote, validate, validate_remote,
}

pub record Opens (g : Gate) (marks : Dict Mark) : Type 0 where
  pub opened : open_gate g ≡ ok marks
  pub positive : Positive marks

-- The mark is above the one that its resource has, if it has one.
abbrev pub IsNext : Dict Mark → String → Mark → Type 0
IsNext marks r mark = judge_mark (get r marks) mark ≡ admitted

pub data Passed (marks : Dict Mark) (r : String) (mark : Mark) (answer : Result Admission)
    (g : Gate) : Type 0 where
  refused : answer ≢ ok admitted → Opens g marks → Passed marks r mark answer g
  recorded :
      answer ≡ ok admitted
      → IsNext marks r mark
      → Opens g (put r mark marks)
      → Passed marks r mark answer g

Positive-put :
    (r : String) (f n : ℕ) (marks : Dict Mark)
    → is_named r ≡ true
    → 0 < f
    → 0 < n
    → Positive marks
    → Positive (put r (f, n) marks)
unfolding put
Positive-put r f n [] named hf hn h = (named, hf, hn, tt)
Positive-put r f n ((k, (f', n')) ∷ marks) named hf hn h = elim (Bool-cases (k == r)) [
  | inl e ↦ rw e (h.0, hf, hn, h.3)
  | inr e ↦ rw e (h.0, h.1, h.2, Positive-put r f n marks named hf hn h.3)
]

is_admitted-eq : (v : Admission) → is_admitted v ≡ true → v ≡ admitted
unfolding is_admitted
is_admitted-eq v h = ground arith

is_admitted-ne : (v : Admission) → is_admitted v ≡ false → ok v ≢ ok admitted
unfolding is_admitted
is_admitted-ne v h e = ground arith

module _ (r : String) (f n : ℕ) (named : is_named r ≡ true) (hf : 0 < f) (hn : 0 < n) where
  commit_marks-Passed :
      (durable saved : Bool) (marks : Dict Mark) (file : Lease.Store.File)
      → let g : Gate = record { durable = durable; watermarks = marks; file = file } in
        Opens g marks
        → IsNext marks r (f, n)
        → Passed marks r
            (f, n)
            (commit_marks (put r (f, n) marks) saved g).0
            (commit_marks (put r (f, n) marks) saved g).1
  unfolding commit_marks open_gate
  commit_marks-Passed false saved marks file o next =
      recorded refl next
        (record { opened = refl; positive = Positive-put r f n marks named hf hn o.positive })
  commit_marks-Passed true false marks file o next =
      refused (λ e. cc) (record { opened = o.opened; positive = o.positive })
  commit_marks-Passed true true marks file o next =
      let p = Positive-put r f n marks named hf hn o.positive in
      recorded refl next
        (record { opened = decode_marks-encode_marks (put r (f, n) marks) p; positive = p })

  pass_mark-Passed :
      (saved : Bool) (g : Gate)
      → Opens g g.watermarks
      → Passed g.watermarks r (f, n) (pass_mark r (f, n) saved g).0 (pass_mark r (f, n) saved g).1
  unfolding pass_mark
  pass_mark-Passed saved g o =
      elim (Bool-cases (is_admitted (judge_mark (get r g.watermarks) (f, n)))) [
        | inl h ↦ rw h (
            commit_marks-Passed g.durable saved g.watermarks g.file o
              (is_admitted-eq (judge_mark (get r g.watermarks) (f, n)) h))
        | inr h ↦ rw h (refused (is_admitted-ne (judge_mark (get r g.watermarks) (f, n)) h) o)
      ]

pub is_commanded-eq : (d : CommandDecision) → is_commanded d ≡ true → d ≡ commanded
unfolding is_commanded
is_commanded-eq d h = ground arith

validate_command-positive :
    (hash : Hash) (verifiers : Dict Verifier) (p : Proof) (g : LeaseGrant)
    → validate_command hash verifiers p g ≡ commanded
    → 0 < p.command_sequence
unfolding validate_command validate_proof judge_key
validate_command-positive hash verifiers p g h = ground arith

validate_remote_command-positive :
    (hash : Hash) (verifiers : Dict Verifier) (p : Proof) (r : RemoteResult)
    → validate_remote_command hash verifiers p r ≡ commanded
    → 0 < p.command_sequence
unfolding validate_remote_command validate_proof judge_key
validate_remote_command-positive hash verifiers p r h = ground arith

pass_command-Passed :
    (d : CommandDecision) (expected : Option String) (p : Proof) (r : String) (f : ℕ) (saved : Bool)
    → (g : Gate) → is_named r ≡ true
    → 0 < f
    → (d ≡ commanded → 0 < p.command_sequence)
    → Opens g g.watermarks
    → Passed g.watermarks r
        (f, p.command_sequence)
        (pass_command d expected p r f saved g).0
        (pass_command d expected p r f saved g).1
unfolding pass_command
pass_command-Passed d expected p r f saved g named hf hn o = elim (Bool-cases (is_commanded d)) [
  | inr no_command ↦ rw no_command (refused (λ e. cc) o)
  | inl command ↦ elim (Bool-cases (is_expected expected p)) [
    | inr other ↦ rw (command, other) (refused (λ e. cc) o)
    | inl same ↦
        rw (command, same)
          (pass_mark-Passed r f p.command_sequence named hf (hn (is_commanded-eq d command)) saved g
            o)
  ]
]

module _ (marks : Dict Mark) (r : String) (mark : Mark)
    (rest : Gate → Result Admission × Gate) where
  pass_lease-Passed :
      (answer : Result Lease.Decision) (g : Gate)
      → Opens g marks
      → Passed marks r mark (rest g).0 (rest g).1
      → Passed marks r mark (pass_lease answer rest g).0 (pass_lease answer rest g).1
  unfolding pass_lease
  pass_lease-Passed (err e) g o h = refused (λ e. cc) o
  pass_lease-Passed (ok Lease.allow) g o h = h
  pass_lease-Passed (ok Lease.stale_fence) g o h = refused (λ e. cc) o
  pass_lease-Passed (ok _) g o h = refused (λ e. cc) o

  ask_authority-Passed :
      (l : Option Lease) (now : Number) (g : Gate) (s : Store)
      → Opens g marks
      → Passed marks r mark (rest g).0 (rest g).1
      → Passed marks r mark (ask_authority l now rest g s).0 (ask_authority l now rest g s).1
  unfolding ask_authority
  ask_authority-Passed none now g s o h = refused (λ e. cc) o
  ask_authority-Passed (some l) now g s o h =
      pass_lease-Passed (Lease.Store.validate l now s).0 g o h

reopen :
    (g : Gate) (marks : Dict Mark) → Opens g marks → Opens (record g { watermarks = marks }) marks
unfolding open_gate
reopen g marks o = elim (Bool-cases g.durable) [
  | inl d ↦ record { opened = rw d (rw d at o.opened); positive = o.positive }
  | inr d ↦ record { opened = rw d; positive = o.positive }
]

pub is_granted-eq : (d : GrantDecision) → is_granted d ≡ true → d ≡ granted
unfolding is_granted
is_granted-eq d h = ground arith

is_accepted-eq : (d : ResultDecision) → is_accepted d ≡ true → d ≡ accepted
unfolding is_accepted
is_accepted-eq d h = ground arith

-- A call of `validate` admits its command and records its mark, or refuses it and keeps every watermark.
pub validate-Passed :
    (keys : Keys) (grant : LeaseGrant) (p : Proof) (now : Number) (expected : Option String)
    → (saved : Bool) (g : Gate) (s : Store) (marks : Dict Mark) → Opens g marks
    → let r = validate keys grant p now expected saved g s in
      Passed marks grant.resource_id (grant.fencing_token, p.command_sequence) r.0 r.1
unfolding validate with_marks
validate-Passed keys grant p now expected saved g s marks o =
    let o' = reopen g marks o in
    elim (Bool-cases (is_granted (validate_grant keys.grant_verifiers grant now))) [
      | inr no_grant ↦ rw (o.opened, no_grant, with_marks) (refused (λ e. cc) o')
      | inl given ↦
          let genuine =
            validate_grant-IsGenuine keys.grant_verifiers grant now (is_granted-eq _ given) in
          rw (o.opened, given, with_marks)
            (ask_authority-Passed marks grant.resource_id (grant.fencing_token, p.command_sequence)
              _ _ now (record g { watermarks = marks }) s o'
              (pass_command-Passed (validate_command keys.hash keys.command_verifiers p grant)
                expected p grant.resource_id grant.fencing_token saved
                (record g { watermarks = marks }) genuine.resource genuine.positive
                (validate_command-positive keys.hash keys.command_verifiers p grant) o'))
    ]

pub judge_remote-accepted :
    (keys : Keys) (q : AtomicRequest) (r : RemoteResult) (now : Number)
    → judge_remote keys q r now ≡ true
    → (verifiers : Dict KeyVerifier) × (keys.result_verifiers ≡ some verifiers)
      × (validate_result keys.hash verifiers q r now ≡ accepted)
unfolding judge_remote
judge_remote-accepted keys q r now h = elim (Option-cases keys.result_verifiers) [
  | inl e ↦ absurd (cc (rw (e, judge_remote) at h))
  | inr (vs, e) ↦
      (vs, e, is_accepted-eq (validate_result keys.hash vs q r now) (rw (e, judge_remote) at h))
]

-- So does a call of `validate_remote`.
pub validate_remote-Passed :
    (keys : Keys) (q : AtomicRequest) (result : RemoteResult) (p : Proof) (now : Number)
    → (expected : Option String) (saved : Bool) (g : Gate) (s : Store) (marks : Dict Mark)
    → Opens g marks
    → let r = validate_remote keys q result p now expected saved g s in
      Passed marks result.resource_id (result.fencing_token, p.command_sequence) r.0 r.1
unfolding validate_remote with_marks
validate_remote-Passed keys q result p now expected saved g s marks o =
    let o' = reopen g marks o in
    elim (Bool-cases (judge_remote keys q result now)) [
      | inr no_result ↦ rw (o.opened, no_result, with_marks) (refused (λ e. cc) o')
      | inl given ↦
          let (vs, _, ok_result) = judge_remote-accepted keys q result now given in
          let a = validate_result-IsAnswer keys.hash vs q result now ok_result in
          rw (o.opened, given, with_marks)
            (ask_authority-Passed marks result.resource_id
              (result.fencing_token, p.command_sequence) _ _ now (record g { watermarks = marks }) s
              o'
              (pass_command-Passed
                (validate_remote_command keys.hash keys.command_verifiers p result) expected p
                result.resource_id result.fencing_token saved (record g { watermarks = marks })
                (IsAnswer-named keys.hash vs q result now a) a.positive
                (validate_remote_command-positive keys.hash keys.command_verifiers p result) o'))
    ]
