-- ===== src/Connector/Quality.antt =====
-- src/connectors/core/base-connector.ts: `emitQualityUpdate`, `emitValueUpdates` and the value cache.
pub mod Bad
use opcua_light_server.Prelude.{
  ℕ, String, ◌&&◌, not, Option, none, some, List, [], ◌∷◌, ◌++◌, if◌then◌else◌, is_empty, Dict,
  lookup, insert, values, str_eq,
}
use opcua_light_server.Connector.Types.{
  Mapping, Quality, good, bad, ValueUpdate, CurrentValue, Managed, Core,
}

module _ {V : Type 0} where
  -- The body of the first loop of `emitQualityUpdate`, from the cached value, if there is one.
  unfoldable pub requalify :
      Quality
      → ℕ
      → String
      → Mapping
      → Option (CurrentValue V)
      → Dict (CurrentValue V)
      → Dict (CurrentValue V)
  requalify q now connection_id mapping (some cached) cache =
      insert mapping.id (record cached { quality = q; timestamp = now }) cache
  requalify good now connection_id mapping none cache = cache
  requalify bad now connection_id mapping none cache =
      insert mapping.id
        (record {
          node_id = mapping.node_id;
          device_address = mapping.device_address;
          connection_id = connection_id;
          value = none;
          quality = bad;
          timestamp = now;
        })
        cache

  -- The loop; `now` is what the clock reads at each mapping.
  unfoldable pub requalify_all :
      Quality → (String → ℕ) → String → List Mapping → Dict (CurrentValue V) → Dict (CurrentValue V)
  unfolding requalify
  requalify_all q now connection_id [] cache = cache
  requalify_all q now connection_id (mapping ∷ rest) cache =
      requalify_all q now connection_id rest
        (requalify q (now mapping.id) connection_id mapping (lookup mapping.id cache) cache)

  abbrev push_update :
      Quality → (String → ℕ) → Mapping → Option String → List (ValueUpdate V) → List (ValueUpdate V)
  push_update q now mapping none updates = updates
  push_update q now mapping (some node_id) updates =
      if str_eq node_id ""
      then updates
      else record { node_id = node_id; value = none; quality = q; timestamp = now mapping.id }
        ∷ updates

  -- The second loop: the mappings without a node are skipped.
  unfoldable pub quality_updates : Quality → (String → ℕ) → List Mapping → List (ValueUpdate V)
  quality_updates q now [] = []
  quality_updates q now (mapping ∷ rest) =
      push_update q now mapping mapping.node_id (quality_updates q now rest)

  -- A batch goes to the callback if there is one and the batch is not empty.
  unfoldable pub emit_value_updates : List (ValueUpdate V) → Core V → Core V
  emit_value_updates updates c =
      if c.has_callback && not (is_empty updates)
      then record c { world = record c.world { delivered = c.world.delivered ++ updates ∷ [] } }
      else c

  unfoldable pub cache_value : String → CurrentValue V → Core V → Core V
  cache_value mapping_id value c = record c {
    current_values = insert mapping_id value c.current_values;
  }

  unfoldable pub get_current_values : Core V → List (CurrentValue V)
  get_current_values c = values c.current_values

  -- `now` and `now'` are the clock in the two loops. (Without mappings the second loop is empty too.)
  unfoldable pub emit_quality_update :
      {P X : Type 0} → Quality → (String → ℕ) → (String → ℕ) → Managed P X → Core V → Core V
  unfolding requalify_all quality_updates emit_value_updates
  emit_quality_update q now now' m c =
      emit_value_updates (quality_updates q now' (values m.mappings)) (record c {
        current_values = requalify_all q now m.config.id (values m.mappings) c.current_values;
      })
