-- ===== src/Config/Xo.antt =====
-- examples/xo_python/sawtooth_xo/processor/config/xo.py, and `load_xo_config` of
-- examples/xo_python/sawtooth_xo/processor/main.py.
use sawtooth_sdk_python.Base.{Option, none, some, List, [], ◌∷◌, if◌then◌else◌}
use mathlib.Core.List.{reverse}
use sawtooth_sdk_python.Base.Text.{Text, codes, text_eq, is_empty}
use sawtooth_sdk_python.Base.Dict.{Dict, lookup}
use sawtooth_sdk_python.Base.Exec.{
  Result, ok, raised, then_do, message, local_configuration_error, value_error,
}
use sawtooth_sdk_python.Xo.Game.{sorted}
use sawtooth_sdk_python.Config.Paths.{System, File, missing, unreadable, contents, get_config_dir}

pub record XoConfig : Type 0 where
  pub connect : Option Text

-- `load_default_xo_config`
unfoldable pub load_default_xo_config : XoConfig
load_default_xo_config = record { connect = some (codes "tcp://localhost:4004") }

-- `set(toml_config.keys()).difference(['connect'])`
unfoldable pub invalid_keys : Dict Text → List Text
invalid_keys [] = []
invalid_keys ((k, v) ∷ table) =
    let rest = invalid_keys table in if text_eq k (codes "connect") then rest else k ∷ rest

-- The config of a table. The message ends with the keys, joined by ", ".
unfoldable pub config_of_table : Dict Text → Result XoConfig
unfolding invalid_keys
config_of_table table =
    if is_empty (invalid_keys table)
    then ok (record { connect = lookup (codes "connect") table })
    else raised (
        local_configuration_error (
          message "Invalid keys in transaction processor config: {}" (sorted (invalid_keys table))))

module _ {C : Type 0} (system : System C) where
  -- `load_toml_xo_config`, of what is at the path
  unfoldable pub load_toml_xo_config : File → Result XoConfig
  unfolding config_of_table
  load_toml_xo_config missing = ok (record { connect = none })
  load_toml_xo_config unreadable = raised (
      local_configuration_error
        (message "Unable to load transaction processor configuration file: {}" []))
  load_toml_xo_config (contents text) = elim (system.toml text) [
    | none ↦ raised value_error
    | some table ↦ config_of_table table
  ]

-- A setting that is there, or the other
abbrev pub or_else : Option Text → Option Text → Option Text
or_else none other = other
or_else (some c) other = some c

-- The loop of `merge_xo_config`
unfoldable pub merge_loop : Option Text → List XoConfig → Option Text
merge_loop connect [] = connect
merge_loop connect (config ∷ configs) = merge_loop (or_else config.connect connect) configs

-- `merge_xo_config`
unfoldable pub merge_xo_config : List XoConfig → XoConfig
unfolding merge_loop
merge_xo_config configs = record { connect = merge_loop none (reverse configs) }

-- `load_xo_config` of main.py
unfoldable pub load_xo_config : {C : Type 0} → System C → XoConfig → Result XoConfig
unfolding load_toml_xo_config merge_xo_config load_default_xo_config get_config_dir
load_xo_config system first_config =
    then_do
      (load_toml_xo_config system
        (system.file (system.join_path (get_config_dir system) (codes "xo.toml"))))
      (λ toml_config.
        ok (merge_xo_config (first_config ∷ toml_config ∷ load_default_xo_config ∷ [])))
