-- ===== src/Config/Examples.antt =====
-- The theorem on examples/xo_python/sawtooth_xo/processor/config/xo.py with no endpoint in the file.
use sawtooth_sdk_python.Base.{◌≡◌, none, some, List, [], ◌∷◌}
use sawtooth_sdk_python.Base.Text.{codes}
use sawtooth_sdk_python.Config.Xo.{XoConfig, load_default_xo_config, merge_xo_config}
use sawtooth_sdk_python.Config.Chosen.{first_set, merge_xo_config-eq-first_set}

abbrev three_configs : List XoConfig
three_configs =
    record { connect = none }
    ∷ record { connect = some (codes "tcp://v:4004") }
    ∷ load_default_xo_config
    ∷ []

merge_xo_config-eq-first_set_example :
    (merge_xo_config three_configs).connect ≡ first_set three_configs
merge_xo_config-eq-first_set_example = merge_xo_config-eq-first_set three_configs
