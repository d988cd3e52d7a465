-- ===== src/Compiler/Config/Breaking/Keeps.antt =====
-- A change that is not breaking keeps the configurations of existing nodes valid.
use bpg.Common.{
  String, ◌≡◌, sym, true, none, some, Dict, get, has_key, keys, contains, arith, inl, inr, ◌⊎◌, All,
  All-map, All-zip, Bool-cases, contains-keys, get-eq-some, ◌∙◌,
}
use bpg.Value.{Fields}
use bpg.Compiler.Types.{FieldType, field_type, parse_field_type}
use bpg.Compiler.Topology.Correct.{IsUnique}
use bpg.Compiler.Schema.{NodeType, resolve_fields}
use bpg.Compiler.Config.{
  Readers, fine, check_present, check_schema, validate_config, get_path, all_in, field_paths,
}
use bpg.Compiler.Config.Breaking.{schema_change, not_breaking, is_breaking_node_type_change}
use bpg.Compiler.Config.Breaking.Values.{Passes, IsLooser, check_schema-get, All-check_schema}
use bpg.Compiler.Config.Breaking.Fields.{
  get-resolve_fields, resolve_fields_absent, All-get, schema_change-get, all_in-widens, within,
  passes_looser, compared-not_breaking,
}

module _ (readers : Readers) (old new : NodeType) where
  kept_fields :
      is_breaking_node_type_change old new ≡ not_breaking
      → (olds : Dict FieldType) × (news : Dict FieldType) × (resolve_fields old.config_schema
          ≡ some olds)
        × (resolve_fields new.config_schema ≡ some news)
        × (schema_change olds news ≡ none)
  unfolding is_breaking_node_type_change
  kept_fields h =
      compared-not_breaking (resolve_fields old.config_schema) (resolve_fields new.config_schema)
        (ground (arith, h))

  -- The field is in the old schema, or it is optional and the configuration does not have it.
  abbrev pub IsOldOrAbsent : Fields → String × String → Type 0
  IsOldOrAbsent config (name, type_str) =
      (has_key name old.config_schema ≡ true)
      ⊎ ((t : FieldType) × (parse_field_type type_str ≡ field_type t)
          × (t.optional ≡ true)
          × (get_path config name ≡ none))

  module _ (olds news : Dict FieldType) (ro : resolve_fields old.config_schema ≡ some olds)
      (rn : resolve_fields new.config_schema ≡ some news)
      (same : schema_change olds news ≡ none) where
    -- An old field in both schemas.
    kept_field :
        (name : String)
        → has_key name old.config_schema ≡ true
        → (type_str : String) × (t t' : FieldType) × (get name old.config_schema ≡ some type_str)
          × (parse_field_type type_str ≡ field_type t)
          × (get name news ≡ some t')
          × IsLooser t t'
    kept_field name listed =
        let (type_str, on) = get-eq-some name old.config_schema listed in
        let (t, found, parsed) = get-resolve_fields old.config_schema olds ro name type_str on in
        let (t', found', looser) = schema_change-get olds news same name t found in
        (type_str, t, t', on, parsed, found', looser)

    keys_widen :
        (x : String)
        → contains (keys old.config_schema) x ≡ true
        → contains (keys new.config_schema) x ≡ true
    keys_widen x on = elim (Bool-cases (has_key x new.config_schema)) [
      | inl listed ↦ contains-keys x new.config_schema ∙ listed
      | inr absent ↦
          let (_, _, t', _, _, found', _) =
            kept_field x (sym (contains-keys x old.config_schema) ∙ on) in
          absurd (cc (found', resolve_fields_absent new.config_schema news rn x absent))
    ]

    entry-Passes :
        (config : Fields) (name type_str : String)
        → check_schema readers old.config_schema config ≡ fine
        → get name new.config_schema ≡ some type_str
        → IsOldOrAbsent config (name, type_str)
        → Passes readers config (name, type_str)
    unfolding check_present
    entry-Passes config name type_str valid on (inr (t, parsed, is_optional, absent)) =
        rw (parsed, absent) (ground (arith, is_optional))
    entry-Passes config name type_str valid on (inl listed) =
        let (old_str, t, t', on_old, parsed, found', looser) = kept_field name listed in
        let (t'', found'', parsed'') =
          get-resolve_fields new.config_schema news rn name type_str on in
        let before = check_schema-get readers old.config_schema config valid name old_str on_old in
        passes_looser readers name old_str type_str t t' t'' (get_path config name) parsed parsed''
          (cc (found', found'')) looser before

  -- A change of a node type that is not reported as breaking, and whose new fields are optional and absent
  -- from a configuration, keeps that configuration valid.
  pub is_breaking_node_type_change-keeps :
      (config : Fields)
      → is_breaking_node_type_change old new ≡ not_breaking
      → IsUnique (keys new.config_schema)
      → All (IsOldOrAbsent config) new.config_schema
      → validate_config readers old.config_schema config ≡ fine
      → validate_config readers new.config_schema config ≡ fine
  unfolding validate_config
  is_breaking_node_type_change-keeps config same unique added valid =
      let (olds, news, ro, rn, change) = kept_fields same in
      let (inside, passed) =
        within (all_in (keys old.config_schema) (field_paths "" config))
          (check_schema readers old.config_schema config) valid in
      let wide =
        all_in-widens (keys old.config_schema) (keys new.config_schema) (field_paths "" config)
          (keys_widen olds news ro rn change) inside in
      rw (wide, validate_config)
        (All-check_schema readers new.config_schema config (
          All-map
            (λ (e : String × String)
                (h : (get e.0 new.config_schema ≡ some e.1) × IsOldOrAbsent config e).
              entry-Passes olds news ro rn change config e.0 e.1 passed h.0 h.1)
            new.config_schema
            (All-zip _ _ new.config_schema (All-get new.config_schema unique) added)))
