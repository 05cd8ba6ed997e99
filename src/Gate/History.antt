-- ===== src/Gate/History.antt =====
-- Histories of control/controller_authority_gate.py. Between two calls of the gate the lease authority
-- may be in any state.
use audio_bodyguard_alpha.Prelude.{
  ◌≤◌, ◌<◌, ◌≡◌, ◌≢◌, refl, ◌⊎◌, inl, inr, String, Bool, ◌==◌, eq_iff, eq_refl, Option, some, ok,
  arith, Bool-cases,
}
use audio_bodyguard_alpha.Prelude.Dict.{Dict, get, put, get-put}
use audio_bodyguard_alpha.Json.{Number}
use audio_bodyguard_alpha.Lease.Store.{Store}
use audio_bodyguard_alpha.Evidence.LeaseGrant.{LeaseGrant}
use audio_bodyguard_alpha.Evidence.Remote.{AtomicRequest, RemoteResult}
use audio_bodyguard_alpha.Evidence.Command.{Proof}
use audio_bodyguard_alpha.Gate.{
  Gate, Mark, Keys, admitted, judge_mark, validate, validate_remote, Answered,
}
use audio_bodyguard_alpha.Gate.Watermark.{
  Opens, Passed, refused, recorded, validate-Passed, validate_remote-Passed,
}

-- One call of either method; `saved` says whether the file system takes the save.
pub data Call : Type 0 where
  local : LeaseGrant → Proof → Number → Option String → Bool → Call
  remote : AtomicRequest → RemoteResult → Proof → Number → Option String → Bool → Call

unfoldable pub run_call : Keys → Call → Gate → Store → Answered
run_call keys (local grant p now expected saved) = validate keys grant p now expected saved
run_call keys (remote q r p now expected saved) = validate_remote keys q r p now expected saved

-- The resource and the mark that the evidence of a call names.
abbrev pub resource_of : Call → String
resource_of (local grant p now expected saved) = grant.resource_id
resource_of (remote q r p now expected saved) = r.resource_id

abbrev pub mark_of : Call → Mark
mark_of (local grant p now expected saved) = (grant.fencing_token, p.command_sequence)
mark_of (remote q r p now expected saved) = (r.fencing_token, p.command_sequence)

run_call-Passed :
    (keys : Keys) (c : Call) (g : Gate) (s : Store) (marks : Dict Mark)
    → Opens g marks
    → Passed marks (resource_of c) (mark_of c) (run_call keys c g s).0 (run_call keys c g s).1
unfolding run_call
run_call-Passed keys (local grant p now expected saved) g s marks o =
    validate-Passed keys grant p now expected saved g s marks o
run_call-Passed keys (remote q r p now expected saved) g s marks o =
    validate_remote-Passed keys q r p now expected saved g s marks o

pub data Reach (keys : Keys) (g : Gate) : Gate → Type 0 where
  here : Reach keys g g
  next :
      {h k : Gate} (c : Call) (s : Store)
      → Reach keys g h
      → k ≡ (run_call keys c h s).1
      → Reach keys g k

-- A lower fence, or the same fence with a sequence that is no higher.
abbrev pub AtMost : Mark → Mark → Type 0
AtMost (f, n) (f', n') = (f < f') ⊎ ((f ≡ f') × (n ≤ n'))

AtMost-refl : (m : Mark) → AtMost m m
AtMost-refl (f, n) = inr (refl, omega arith)

AtMost-next :
    (m old new : Mark) → AtMost m old → judge_mark (some old) new ≡ admitted → AtMost m new
unfolding judge_mark
AtMost-next (f, n) (f', n') (f'', n'') h e = grind arith

AtMost-refused : (m old : Mark) → AtMost m old → judge_mark (some old) m ≢ admitted
unfolding judge_mark
AtMost-refused (f, n) (f', n') h e = grind arith

AtMost-trans : (a b c : Mark) → AtMost a b → AtMost b c → AtMost a c
AtMost-trans (a, b) (c, d) (e, f) h k = grind arith

-- The resource has a mark, and it is at least this one.
pub record Covers (g : Gate) (r : String) (m : Mark) : Type 0 where
  pub marks : Dict Mark
  pub opens : Opens g marks
  pub top : Mark
  pub found : get r marks ≡ some top
  pub covered : AtMost m top

Covers-next :
    (keys : Keys) (c : Call) (g : Gate) (s : Store) (r : String) (m : Mark)
    → Covers g r m
    → Covers (run_call keys c g s).1 r m
Covers-next keys c g s r m v = step (run_call-Passed keys c g s v.marks v.opens)
  where
    step :
        Passed v.marks (resource_of c) (mark_of c) (run_call keys c g s).0 (run_call keys c g s).1
        → Covers (run_call keys c g s).1 r m
    step (refused ne o) = record {
      marks = v.marks;
      opens = o;
      top = v.top;
      found = v.found;
      covered = v.covered;
    }
    step (recorded e new o) = elim (Bool-cases (resource_of c == r)) [
      | inl same ↦
          let at_r : judge_mark (get r v.marks) (mark_of c) ≡ admitted =
            rw ((eq_iff (resource_of c) r).0 same) at new in
          record {
            marks = put (resource_of c) (mark_of c) v.marks;
            opens = o;
            top = mark_of c;
            found = rw (get-put, same);
            covered = AtMost-next m v.top (mark_of c) v.covered (rw v.found at at_r);
          }
      | inr other ↦ record {
        marks = put (resource_of c) (mark_of c) v.marks;
        opens = o;
        top = v.top;
        found = rw (get-put, other) v.found;
        covered = v.covered;
      }
    ]

Covers-Reach :
    (keys : Keys) (g h : Gate) (r : String) (m : Mark)
    → Reach keys g h
    → Covers g r m
    → Covers h r m
Covers-Reach keys g h r m here v = v
Covers-Reach keys g h r m (next {h = k} c s reach e) v =
    rw e (Covers-next keys c k s r m (Covers-Reach keys g k r m reach v))

admitted-Covers :
    (keys : Keys) (c : Call) (g : Gate) (s : Store) (marks : Dict Mark)
    → Opens g marks
    → (run_call keys c g s).0 ≡ ok admitted
    → Covers (run_call keys c g s).1 (resource_of c) (mark_of c)
admitted-Covers keys c g s marks o e = step (run_call-Passed keys c g s marks o)
  where
    step :
        Passed marks (resource_of c) (mark_of c) (run_call keys c g s).0 (run_call keys c g s).1
        → Covers (run_call keys c g s).1 (resource_of c) (mark_of c)
    step (refused ne o') = absurd (ne e)
    step (recorded e' new o') = record {
      marks = put (resource_of c) (mark_of c) marks;
      opens = o';
      top = mark_of c;
      found = rw (get-put, eq_refl (resource_of c));
      covered = AtMost-refl (mark_of c);
    }

Covers-refuses :
    (keys : Keys) (c : Call) (g : Gate) (s : Store) (m : Mark)
    → Covers g (resource_of c) m
    → AtMost (mark_of c) m
    → (run_call keys c g s).0 ≢ ok admitted
Covers-refuses keys c g s m v le e = step (run_call-Passed keys c g s v.marks v.opens)
  where
    step :
        Passed v.marks (resource_of c) (mark_of c) (run_call keys c g s).0 (run_call keys c g s).1
        → ⊥
    step (refused ne o) = ne e
    step (recorded e' new o) =
        AtMost-refused (mark_of c) v.top (AtMost-trans (mark_of c) m v.top le v.covered)
          (rw v.found at new)

-- Once the gate has admitted a command, then after any further calls, whatever the failures of their
-- saves and whatever the lease authority answers, no command for the same resource is admitted under a
-- lower fencing token, or under the same token with a sequence that is no higher.
pub admitted-once :
    (keys : Keys) (c again : Call) (g h : Gate) (s s' : Store) (marks : Dict Mark)
    → Opens g marks
    → (run_call keys c g s).0 ≡ ok admitted
    → Reach keys (run_call keys c g s).1 h
    → resource_of again ≡ resource_of c
    → AtMost (mark_of again) (mark_of c)
    → (run_call keys again h s').0 ≢ ok admitted
admitted-once keys c again g h s s' marks o e reach same le =
    let first = admitted-Covers keys c g s marks o e in
    let later =
      Covers-Reach keys (run_call keys c g s).1 h (resource_of c) (mark_of c) reach first in
    Covers-refuses keys again h s' (mark_of c) (rw same later) le
