-- ===== src/RemoteAuthority/Codec.antt =====
-- `_save_state` and `_load_state` of control/remote_atomic_controller_authority.py: the three versions
-- of the document that are written, the four that are read, and every check of what is read. A token,
-- a name or a signature of another type is refused by type here, by the check of the signature there.
pub mod Reading
pub mod Signed
pub mod Written
use audio_bodyguard_alpha.Prelude.{
  ℕ, String, List, [], ◌∷◌, Result, ok, ◌>>=◌, ◌>>◌, or_raise, other_error,
}
use audio_bodyguard_alpha.Prelude.Time.{pos, Time}
use audio_bodyguard_alpha.Prelude.Dict.{Dict, get}
use audio_bodyguard_alpha.Json.{
  Json, Items, Fields, nil, cons, str, int, float, arr, obj, field, end, finite,
}
use audio_bodyguard_alpha.Lease.{Lease}
use audio_bodyguard_alpha.Evidence.Remote.{RemoteResult}
use audio_bodyguard_alpha.Endpoint.Installer.{Directive}
use audio_bodyguard_alpha.RemoteAuthority.{Fingerprint, acquired, handed, Committed, Remote}

-- `_lease_record`
unfoldable pub lease_record : Lease → Json
lease_record l = obj (
    field "resource_id" (str l.resource_id) (
      field "controller_id" (str l.controller_id) (
        field "fencing_token" (int (pos l.fencing_token)) (
          field "issued_at" (float (finite l.issued_at))
            (field "expires_at" (float (finite l.expires_at)) end)))))

unfoldable pub write_fingerprint : Fingerprint → Items
write_fingerprint (acquired r c now ttl) =
    cons (str "acquire") (cons (str r) (cons (str c) (cons (float now) (cons (float ttl) nil))))
write_fingerprint (handed r c t i e n now ttl) = cons (str "handoff") (
    cons (str r) (
      cons (str c) (
        cons (int (pos t)) (
          cons (float (finite i))
            (cons (float (finite e)) (cons (str n) (cons (float now) (cons (float ttl) nil))))))))

-- `highest_tokens[resource_id]` raises for a resource without a token.
unfoldable pub write_resources : Dict Lease → Dict ℕ → Result Fields
unfolding lease_record
write_resources [] highest = ok end
write_resources ((resource_id, lease) ∷ active) highest = do
  token ← or_raise (get resource_id highest) (other_error "KeyError")
  rest ← write_resources active highest
  let value = field "lease" (lease_record lease) (field "highest_token" (int (pos token)) end)
  ok (field resource_id (obj value) rest)

unfoldable pub write_request : Committed → Json
unfolding lease_record write_fingerprint
write_request (fingerprint, lease) = obj (
    field "fingerprint" (arr (write_fingerprint fingerprint))
      (field "lease" (lease_record lease) end))

-- A dict of which each value is written by itself.
unfoldable pub write_dict {ℓ} : {V : Type ℓ} → (V → Json) → Dict V → Fields
write_dict write [] = end
write_dict write ((k, v) ∷ d) = field k (write v) (write_dict write d)

-- `asdict(result)` and `asdict(directive)`
unfoldable pub result_record : RemoteResult → Json
result_record r = obj (
    field "request_digest" (str r.request_digest) (
      field "resource_id" (str r.resource_id) (
        field "controller_id" (str r.controller_id) (
          field "controller_key_id" (str r.controller_key_id) (
            field "fencing_token" (int (pos r.fencing_token)) (
              field "issued_at" (float r.issued_at) (
                field "expires_at" (float r.expires_at) (
                  field "issuer_id" (str r.issuer_id) (
                    field "algorithm" (str r.algorithm)
                      (field "signature" (str r.signature) end))))))))))

unfoldable pub directive_record : Directive → Json
directive_record d = obj (
    field "request_id" (str d.request_id) (
      field "device_id" (str d.device_id) (
        field "resource_id" (str d.resource_id) (
          field "previous_controller_id" (str d.previous_controller_id) (
            field "previous_fencing_token" (int (pos d.previous_fencing_token)) (
              field "controller_id" (str d.controller_id) (
                field "fencing_token" (int (pos d.fencing_token)) (
                  field "issued_at" (float d.issued_at) (
                    field "expires_at" (float d.expires_at) (
                      field "issuer_id" (str d.issuer_id) (
                        field "algorithm" (str d.algorithm)
                          (field "signature" (str d.signature) end))))))))))))

-- The five parts of a document. A version has the first of them, from two to five.
pub record Parts : Type 0 where
  pub resources : Fields
  pub requests : Fields
  pub bindings : Fields
  pub results : Fields
  pub directives : Fields

abbrev numbered : ℕ → Fields → Json
numbered n fs = obj (field "version" (int (pos n)) fs)

-- The version is the lowest, from 2, that has a part for all there is.
unfoldable pub write_parts : Parts → Json
write_parts p =
    let first : Fields → Fields = λ rest. field "resources" (obj p.resources) (
      field "committed_requests" (obj p.requests)
        (field "grant_key_bindings" (obj p.bindings) rest)) in
    elim p.directives [
      | end ↦ elim p.results [
        | end ↦ numbered 2 (first end)
        | field _ _ _ ↦ numbered 3 (first (field "protocol_results" (obj p.results) end))
      ]
      | field _ _ _ ↦ numbered 4 (
          first (
            field "protocol_results" (obj p.results)
              (field "handoff_directives" (obj p.directives) end)))
    ]

-- What `_save_state` writes.
unfoldable pub write_state : Remote → Result Json
unfolding write_resources write_dict write_request result_record directive_record write_parts
write_state s = do
  resources ← write_resources s.authority.memory.active s.authority.memory.highest_tokens
  ok (
      write_parts (record {
        resources = resources;
        requests = write_dict write_request s.committed;
        bindings = write_dict str s.bindings;
        results = write_dict result_record s.results;
        directives = write_dict directive_record s.directives;
      }))
