-- ===== src/Registry.antt =====
-- internal/registry/registry.go: the tables of factories. A factory may fail; its stages and codecs
-- are code of the plugins. The lock keeps each operation whole.
use eventr.Common.{Bool, String, [], Option, none, some, ◌⊎◌, inl, inr}
use eventr.Common.Dict.{Dict, lookup, insert, has}
use eventr.Config.Value.{Fields}
use eventr.Config.Types.{CodecRef, BatchConfig}
use eventr.Common.Int.{ℤ}

-- The map that a factory of a stage receives: the stage's own entries, and those that
-- instantiateStage adds under "__decoder" and so on, each under its own type here.
pub record FactoryConfig : Type 0 where
  pub own : Fields
  pub decoder : Option CodecRef
  pub encoder : Option CodecRef
  pub predicate : String
  pub workers : ℤ
  pub batch : Option BatchConfig
  pub ordering : String
  pub max_in_flight : ℤ

abbrev pub StageFactory {ℓ} : Type ℓ → Type ℓ → Type ℓ
StageFactory E S = String → FactoryConfig → E ⊎ S

abbrev pub CodecFactory {ℓ} : Type ℓ → Type ℓ → Type ℓ
CodecFactory E C = Option Fields → E ⊎ C

pub record Registry {ℓ} (E Source Transform Sink Codec : Type ℓ) : Type ℓ where
  pub sources : Dict (StageFactory E Source)
  pub transforms : Dict (StageFactory E Transform)
  pub sinks : Dict (StageFactory E Sink)
  pub codecs : Dict (CodecFactory E Codec)

pub data RegistryError {ℓ} (E : Type ℓ) : Type ℓ where
  unknown_source : String → RegistryError E
  unknown_transform : String → RegistryError E
  unknown_sink : String → RegistryError E
  unknown_codec : String → RegistryError E
  factory_failed : E → RegistryError E

abbrev made {ℓ} : {E A : Type ℓ} → E ⊎ A → RegistryError E ⊎ A
made (inl e) = inl (factory_failed e)
made (inr a) = inr a

module _ {ℓ} {E Source Transform Sink Codec : Type ℓ} where
  -- New
  unfoldable pub new_registry : Registry E Source Transform Sink Codec
  new_registry = record { sources = []; transforms = []; sinks = []; codecs = [] }

  unfoldable pub register_source :
      String
      → StageFactory E Source
      → Registry E Source Transform Sink Codec
      → Registry E Source Transform Sink Codec
  unfolding insert
  register_source name factory r = record r { sources = insert name factory r.sources }

  unfoldable pub register_transform :
      String
      → StageFactory E Transform
      → Registry E Source Transform Sink Codec
      → Registry E Source Transform Sink Codec
  unfolding insert
  register_transform name factory r = record r { transforms = insert name factory r.transforms }

  unfoldable pub register_sink :
      String
      → StageFactory E Sink
      → Registry E Source Transform Sink Codec
      → Registry E Source Transform Sink Codec
  unfolding insert
  register_sink name factory r = record r { sinks = insert name factory r.sinks }

  unfoldable pub register_codec :
      String
      → CodecFactory E Codec
      → Registry E Source Transform Sink Codec
      → Registry E Source Transform Sink Codec
  unfolding insert
  register_codec name factory r = record r { codecs = insert name factory r.codecs }

  unfoldable pub create_source :
      Registry E Source Transform Sink Codec
      → String
      → String
      → FactoryConfig
      → RegistryError E ⊎ Source
  unfolding lookup
  create_source r type id cfg = elim (lookup type r.sources) [
    | none ↦ inl (unknown_source type)
    | some factory ↦ made (factory id cfg)
  ]

  unfoldable pub create_transform :
      Registry E Source Transform Sink Codec
      → String
      → String
      → FactoryConfig
      → RegistryError E ⊎ Transform
  unfolding lookup
  create_transform r type id cfg = elim (lookup type r.transforms) [
    | none ↦ inl (unknown_transform type)
    | some factory ↦ made (factory id cfg)
  ]

  unfoldable pub create_sink :
      Registry E Source Transform Sink Codec
      → String
      → String
      → FactoryConfig
      → RegistryError E ⊎ Sink
  unfolding lookup
  create_sink r type id cfg = elim (lookup type r.sinks) [
    | none ↦ inl (unknown_sink type)
    | some factory ↦ made (factory id cfg)
  ]

  unfoldable pub create_codec :
      Registry E Source Transform Sink Codec → String → Option Fields → RegistryError E ⊎ Codec
  unfolding lookup
  create_codec r type cfg = elim (lookup type r.codecs) [
    | none ↦ inl (unknown_codec type)
    | some factory ↦ made (factory cfg)
  ]

  abbrev pub has_source : String → Registry E Source Transform Sink Codec → Bool
  has_source type r = has type r.sources

  abbrev pub has_transform : String → Registry E Source Transform Sink Codec → Bool
  has_transform type r = has type r.transforms

  abbrev pub has_sink : String → Registry E Source Transform Sink Codec → Bool
  has_sink type r = has type r.sinks

  abbrev pub has_codec : String → Registry E Source Transform Sink Codec → Bool
  has_codec type r = has type r.codecs
