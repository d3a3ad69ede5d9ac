-- ===== src/Management/Settings.antt =====
-- What the service keeps of the deduplication settings, and where it stops short on the others.
use yeti.Base.{
  ℕ, String, ◌≡◌, refl, true, false, Option, none, some, arith, if◌then◌else◌, value_or,
  Option-cases, inl, inr, is_some,
}
use yeti.Base.Int.{pos, ◌<ℤ◌}
use yeti.Base.Lists.{is_empty, one_of}
use yeti.Errors.Result.{ok}
use yeti.Cel.{CelLib}
use yeti.Management.Notifier.{Json}
use yeti.Management.Requests.{UpdateDeduplicationConfigRequest}
use yeti.Management.Validator.{
  validate_deduplication_config, valid_hash_algorithms, valid_on_redis_error,
}
use yeti.Management.Store.{Database, Collection, Codec, Call, World, DeduplicationConfig}
use yeti.Management.Service.{Service}
use yeti.Management.FilteringRules.{}
use yeti.Management.DedupSettings.{
  default_config, updated_config, get_deduplication_config, update_deduplication_config,
}

-- The settings are ones that the validation of internal/config and the service accept.
abbrev pub SoundConfig : DeduplicationConfig → Type 0
SoundConfig c =
    (one_of c.hash_algorithm valid_hash_algorithms ≡ true)
    × (one_of c.on_redis_error valid_on_redis_error ≡ true)
    × (pos 0 <ℤ c.ttl_seconds)
    × (is_empty c.fields_to_hash ≡ false)

-- None yet, which stands for the defaults, or sound ones.
abbrev pub KeptConfig : Option DeduplicationConfig → Type 0
KeptConfig none = Unit
KeptConfig (some c) = SoundConfig c

module _ (lib : CelLib) (show_nat : ℕ → String) (db : Database) (mongo : Collection) (codec : Codec)
    (json : Json) (s : Service) where
  SoundConfig-updated_config :
      (req : UpdateDeduplicationConfigRequest) (c : DeduplicationConfig)
      → validate_deduplication_config req ≡ none
      → SoundConfig c
      → SoundConfig (updated_config req c)
  unfolding validate_deduplication_config
  SoundConfig-updated_config req c valid (a, b, t, f) = (
    elim (Option-cases req.hash_algorithm) [
      | inl none_given ↦ ground arith
      | inr (x, given) ↦ ground arith
    ],
    elim (Option-cases req.on_redis_error) [
      | inl none_given ↦ ground arith
      | inr (x, given) ↦ ground arith
    ],
    elim (Option-cases req.ttl_seconds) [
      | inl none_given ↦ ground arith
      | inr (x, given) ↦ ground arith
    ],
    elim (Option-cases req.fields_to_hash) [
      | inl none_given ↦ ground arith
      | inr (x, given) ↦ ground arith
    ],
  )

  SoundConfig-value_or :
      (o : Option DeduplicationConfig) → KeptConfig o → SoundConfig (value_or o default_config)
  SoundConfig-value_or none kept = (refl, refl, omega arith, refl)
  SoundConfig-value_or (some c) kept = kept

  -- An update that is refused keeps the settings, and any other sets them.
  dedup_config-update_deduplication_config :
      (call : Call) (req : UpdateDeduplicationConfigRequest) (w : World db mongo)
      → (update_deduplication_config db mongo codec json s call req w).1.dedup_config ≡ (
          if is_some (validate_deduplication_config req)
          then w.dedup_config
          else some (updated_config req (value_or w.dedup_config default_config)))
  unfolding update_deduplication_config
  dedup_config-update_deduplication_config call req w =
      elim (Option-cases (validate_deduplication_config req)) [
        | inr (e, refused) ↦ ground arith
        | inl valid ↦ elim (Option-cases s.config_event_producer) [
          | inl silent ↦ ground arith
          | inr (p, given) ↦ ground arith
        ]
      ]

  -- Sound deduplication settings, with a known hash and fallback, a positive time to live and fields
  -- to hash, stay sound under every update, refused ones included.
  pub update_deduplication_config-KeptConfig :
      (call : Call) (req : UpdateDeduplicationConfigRequest) (w : World db mongo)
      → KeptConfig w.dedup_config
      → KeptConfig (update_deduplication_config db mongo codec json s call req w).1.dedup_config
  update_deduplication_config-KeptConfig call req w kept =
      rw (dedup_config-update_deduplication_config call req w)
        (elim (Option-cases (validate_deduplication_config req)) [
          | inr (e, refused) ↦ rw refused kept
          | inl valid ↦ rw valid (
              SoundConfig-updated_config req (value_or w.dedup_config default_config) valid
                (SoundConfig-value_or w.dedup_config kept))
        ])

  -- After an update that succeeds, the settings are read as it returned them, and each is the one of
  -- the request, or where the request leaves it out, the one from before or else the default.
  pub update_deduplication_config_read :
      (call : Call) (req : UpdateDeduplicationConfigRequest) (w w' : World db mongo)
      (c : DeduplicationConfig)
      → update_deduplication_config db mongo codec json s call req w ≡ (ok c, w')
      → let old = value_or w.dedup_config default_config in
        ((get_deduplication_config db mongo codec json s w').0 ≡ ok c)
        × (c.hash_algorithm ≡ value_or req.hash_algorithm old.hash_algorithm)
        × (c.ttl_seconds ≡ value_or req.ttl_seconds old.ttl_seconds)
        × (c.on_redis_error ≡ value_or req.on_redis_error old.on_redis_error)
        × (c.fields_to_hash ≡ value_or req.fields_to_hash old.fields_to_hash)
  unfolding update_deduplication_config get_deduplication_config
  update_deduplication_config_read call req w w' c h =
      elim (Option-cases (validate_deduplication_config req)) [
        | inr (e, refused) ↦ absurd (ground arith)
        | inl valid ↦ elim (Option-cases s.config_event_producer) [
          | inl silent ↦ ground arith
          | inr (p, given) ↦ ground arith
        ]
      ]
