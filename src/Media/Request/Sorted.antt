-- ===== src/Media/Request/Sorted.antt =====
-- What a request of control/media_control_capabilities.py carries once it is made, and when the gate allows it.
use audio_bodyguard_alpha.Prelude.{
  ◌≤◌, ◌≡◌, ◌≢◌, ◌↔◌, inl, inr, String, true, ◌&&◌, eq_iff, Option, none, some, List, [], ◌∷◌,
  length, leb, ok, arith, Bool-cases, Result-cases, ok_inj, subst,
}
use audio_bodyguard_alpha.Prelude.Time.{ℤ, pos, negsuc, before, before_trans}
use audio_bodyguard_alpha.Prelude.Text.{is_named, is_digest}
use audio_bodyguard_alpha.Prelude.Dict.{Dict}
use audio_bodyguard_alpha.Evidence.{Hash}
use audio_bodyguard_alpha.Media.{
  no_captions, bands, semantic_presets, no_eq, Operation, set_captions_enabled, set_eq_preset,
  set_eq_bands, set_volume, allow, named, natural, Band,
}
use audio_bodyguard_alpha.Media.Manifest.{Manifest, manifest_digest}
use audio_bodyguard_alpha.Media.Request.{
  Parameter, flag, preset, band_list, whole, other_value, Parameters, captions, equaliser, gains,
  volume, only, ascending, check_captions, check_preset, check_bands, check_volume, normalize,
  check_digest, Request, make_request, has_captions, has_presets, has_bands, has_volume,
  is_supported, evaluate,
}

-- Each band's frequency is below those of all later bands.
abbrev pub AllAbove : Band → List Band → Type 0
AllAbove a [] = Unit {0}
AllAbove a (b ∷ bs) = (before a.frequency_hz b.frequency_hz ≡ true) × AllAbove a bs

abbrev pub IsSorted : List Band → Type 0
IsSorted [] = Unit {0}
IsSorted (b ∷ bs) = AllAbove b bs × IsSorted bs

AllAbove-before :
    (a b : Band) (bs : List Band)
    → before a.frequency_hz b.frequency_hz ≡ true
    → AllAbove b bs
    → AllAbove a bs
AllAbove-before a b [] h all = tt
AllAbove-before a b (c ∷ bs) h all = (
  before_trans a.frequency_hz b.frequency_hz c.frequency_hz h all.0,
  AllAbove-before a b bs h all.1,
)

ascending-IsSorted : (bs : List Band) → ascending bs ≡ true → IsSorted bs
unfolding ascending
ascending-IsSorted [] h = tt
ascending-IsSorted (a ∷ []) h = (tt, tt)
ascending-IsSorted (a ∷ b ∷ bs) h = elim (Bool-cases (before a.frequency_hz b.frequency_hz)) [
  | inr late ↦ cc (rw late at h)
  | inl early ↦
      let rest = ascending-IsSorted (b ∷ bs) (rw early at h) in
      ((early, AllAbove-before a b bs early rest.0), rest)
]

-- The parameters that an operation may have.
abbrev pub IsNormal : Operation → Parameters → Type 0
IsNormal set_captions_enabled (captions b) = Unit {0}
IsNormal set_eq_preset (equaliser p) = Unit {0}
IsNormal set_eq_bands (gains bs) = (1 ≤ length bs) × (length bs ≤ 10) × IsSorted bs
IsNormal set_volume (volume n) = n ≤ 100
IsNormal _ _ = ⊥

check_bands-IsNormal :
    (x : Option Parameter) (p : Parameters) → check_bands x ≡ ok p → IsNormal set_eq_bands p
unfolding check_bands
check_bands-IsNormal (some (band_list bs)) p h =
    elim (Bool-cases (leb 1 (length bs) && leb (length bs) 10 && ascending bs)) [
      | inr bad ↦ cc (rw bad at h)
      | inl good ↦
          subst (IsNormal set_eq_bands) (ok_inj (rw good at h)) (
            ground (arith, good),
            ground (arith, good),
            ascending-IsSorted bs (ground (arith, good)),
          )
    ]
check_bands-IsNormal none p h = cc
check_bands-IsNormal (some (flag b)) p h = cc
check_bands-IsNormal (some (preset b)) p h = cc
check_bands-IsNormal (some (whole b)) p h = cc
check_bands-IsNormal (some other_value) p h = cc

check_volume-IsNormal :
    (x : Option Parameter) (p : Parameters) → check_volume x ≡ ok p → IsNormal set_volume p
unfolding check_volume
check_volume-IsNormal (some (whole (pos n))) p h = elim (Bool-cases (leb n 100)) [
  | inr bad ↦ cc (rw bad at h)
  | inl good ↦ subst (IsNormal set_volume) (ok_inj (rw good at h)) (ground (arith, good))
]
check_volume-IsNormal (some (whole (negsuc n))) p h = cc
check_volume-IsNormal none p h = cc
check_volume-IsNormal (some (flag b)) p h = cc
check_volume-IsNormal (some (preset b)) p h = cc
check_volume-IsNormal (some (band_list b)) p h = cc
check_volume-IsNormal (some other_value) p h = cc

check_captions-IsNormal :
    (x : Option Parameter) (p : Parameters)
    → check_captions x ≡ ok p
    → IsNormal set_captions_enabled p
unfolding check_captions
check_captions-IsNormal (some (flag b)) p h = subst (IsNormal set_captions_enabled) (ok_inj h) tt
check_captions-IsNormal none p h = cc
check_captions-IsNormal (some (whole b)) p h = cc
check_captions-IsNormal (some (preset b)) p h = cc
check_captions-IsNormal (some (band_list b)) p h = cc
check_captions-IsNormal (some other_value) p h = cc

check_preset-IsNormal :
    (x : Option Parameter) (p : Parameters) → check_preset x ≡ ok p → IsNormal set_eq_preset p
unfolding check_preset
check_preset-IsNormal (some (preset b)) p h = subst (IsNormal set_eq_preset) (ok_inj h) tt
check_preset-IsNormal none p h = cc
check_preset-IsNormal (some (whole b)) p h = cc
check_preset-IsNormal (some (flag b)) p h = cc
check_preset-IsNormal (some (band_list b)) p h = cc
check_preset-IsNormal (some other_value) p h = cc

normalize-IsNormal :
    (o : Operation) (d : Dict Parameter) (p : Parameters) → normalize o d ≡ ok p → IsNormal o p
unfolding normalize
normalize-IsNormal set_captions_enabled d p h = check_captions-IsNormal (only "enabled" d) p h
normalize-IsNormal set_eq_preset d p h = check_preset-IsNormal (only "preset" d) p h
normalize-IsNormal set_eq_bands d p h = check_bands-IsNormal (only "bands" d) p h
normalize-IsNormal set_volume d p h = check_volume-IsNormal (only "volume_percent" d) p h

-- What every request that can be made satisfies.
pub record IsWellFormed (r : Request) : Type 0 where
  pub device : is_named r.device_id ≡ true
  pub session : is_named r.playback_session_id ≡ true
  pub digest : is_digest r.capability_manifest_digest ≡ true
  pub normal : IsNormal r.operation r.parameters

-- A request that can be made names its device and session, bears a digest, and carries the parameters of its
-- operation: a volume of at most 100, or one to ten bands of which each is below all later ones.
pub make_request-IsWellFormed :
    (device session : String) (generation : ℤ) (o : Operation) (d : Dict Parameter)
    (digest : String) (expected : Option String) (r : Request)
    → make_request device session generation o d digest expected ≡ ok r
    → IsWellFormed r
unfolding make_request named check_digest
make_request-IsWellFormed device session generation o d digest expected r h =
    elim (Bool-cases (is_named device)) [
      | inr no_device ↦ cc (rw no_device at h)
      | inl a ↦ elim (Bool-cases (is_named session)) [
        | inr no_session ↦ cc (rw (a, no_session) at h)
        | inl b ↦ elim (Result-cases (natural generation)) [
          | inr (e, below) ↦ cc (rw (a, b, below) at h)
          | inl (n, c) ↦ elim (Bool-cases (is_digest digest)) [
            | inr no_digest ↦ cc (rw (a, b, c, no_digest) at h)
            | inl k ↦ elim (Result-cases (check_digest expected)) [
              | inr (e, bad) ↦ cc (rw (a, b, c, k, bad) at h)
              | inl (u, x) ↦ elim (Result-cases (normalize o d)) [
                | inr (e, bad) ↦ cc (rw (a, b, c, k, x, bad) at h)
                | inl (p, fine) ↦
                    subst IsWellFormed (ok_inj (rw (a, b, c, k, x, fine) at h)) (record {
                      device = a;
                      session = b;
                      digest = k;
                      normal = normalize-IsNormal o d p fine;
                    })
              ]
            ]
          ]
        ]
      ]
    ]

-- What an operation asks of a manifest.
abbrev pub Supports : Operation → Manifest → Type 0
Supports set_captions_enabled m = m.caption_capability ≢ no_captions
Supports set_eq_preset m = m.eq_capability ≡ semantic_presets
Supports set_eq_bands m = m.eq_capability ≡ bands
Supports set_volume m = m.eq_capability ≢ no_eq

is_supported_iff : (o : Operation) (m : Manifest) → (is_supported o m ≡ true) ↔ Supports o m
unfolding is_supported has_captions has_presets has_bands has_volume
is_supported_iff set_captions_enabled m = ground arith
is_supported_iff set_eq_preset m = ground arith
is_supported_iff set_eq_bands m = ground arith
is_supported_iff set_volume m = ground arith

-- The gate allows a request exactly when it is for the manifest's device, session and content generation, bears its
-- digest, and the manifest supports the operation.
pub evaluate-allow_iff :
    (hash : Hash) (r : Request) (m : Manifest)
    → (evaluate hash r m ≡ allow) ↔ (
        (r.device_id ≡ m.device_id)
        × (r.playback_session_id ≡ m.playback_session_id)
        × (r.content_generation ≡ m.content_generation)
        × (r.capability_manifest_digest ≡ manifest_digest hash m)
        × Supports r.operation m)
unfolding evaluate
evaluate-allow_iff hash r m = ground (
  arith,
  eq_iff r.device_id m.device_id,
  eq_iff r.playback_session_id m.playback_session_id,
  eq_iff r.capability_manifest_digest (manifest_digest hash m),
  is_supported_iff r.operation m,
)
