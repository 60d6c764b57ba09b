-- ===== src/Config/Paths.antt =====
-- sawtooth_sdk/processor/config.py: the directories and the files of the configuration. The operating
-- system and the packages `toml` and `yaml` are parameters.
use sawtooth_sdk_python.Base.{Bool, Option, none, some, if◌then◌else◌, length, drop, ◌-◌}
use sawtooth_sdk_python.Base.Text.{Text, codes, text_eq}
use sawtooth_sdk_python.Base.Dict.{Dict, lookup}
use sawtooth_sdk_python.Base.Exec.{Result, ok, raised, then_do, file_not_found, value_error}

-- A path: no file, one that cannot be read, or the text of one.
pub data File : Type 0 where
  missing unreadable : File
  contents : Text → File

-- `C` is what a configuration of the log comes to. `none` stands for any exception of the parsers.
pub record System (C : Type 0) : Type 0 where
  -- `os.environ.get('SAWTOOTH_HOME')`, `os.name == 'nt'`, and the base directory on Windows
  pub sawtooth_home : Option Text
  pub is_windows : Bool
  pub base_dir : Text
  -- `os.path.join`
  pub join_path : Text → Text → Text
  pub file : Text → File
  -- `toml.loads`, of a table of texts and of a configuration of the log, and `yaml.safe_load`
  pub toml : Text → Option (Dict Text)
  pub toml_log : Text → Option C
  pub yaml_log : Text → Option C

-- `filename.endswith(suffix)`
unfoldable pub ends_with : Text → Text → Bool
ends_with t suffix = text_eq (drop (length t - length suffix) t) suffix

module _ {C : Type 0} (system : System C) where
  -- `get_config_dir`
  unfoldable pub get_config_dir : Text
  get_config_dir = elim system.sawtooth_home [
    | some home ↦ system.join_path home (codes "etc")
    | none ↦
        if system.is_windows
        then system.join_path system.base_dir (codes "conf")
        else codes "/etc/sawtooth"
  ]

  -- `_get_dir` without a setting in path.toml
  unfoldable pub dir_of_system : (sawtooth_home_dir windows_dir default_dir : Text) → Text
  dir_of_system sawtooth_home_dir windows_dir default_dir = elim system.sawtooth_home [
    | some home ↦ system.join_path home sawtooth_home_dir
    | none ↦ if system.is_windows then system.join_path system.base_dir windows_dir else default_dir
  ]

  abbrev set_in : Text → Option (Dict Text) → Result (Option Text)
  set_in setting none = raised value_error
  set_in setting (some table) = ok (lookup setting table)

  -- The setting of path.toml, if there is one
  abbrev setting_of : Text → File → Result (Option Text)
  setting_of setting missing = ok none
  setting_of setting unreadable = raised file_not_found
  setting_of setting (contents text) = set_in setting (system.toml text)

  -- `_get_dir`
  unfoldable pub get_dir : (setting sawtooth_home_dir windows_dir default_dir : Text) → Result Text
  unfolding get_config_dir dir_of_system
  get_dir setting sawtooth_home_dir windows_dir default_dir =
      then_do
        (setting_of setting (system.file (system.join_path get_config_dir (codes "path.toml"))))
        (λ found. elim found [
          | some dir ↦ ok dir
          | none ↦ ok (dir_of_system sawtooth_home_dir windows_dir default_dir)
        ])

  -- `get_log_dir`
  unfoldable pub get_log_dir : Result Text
  unfolding get_dir
  get_log_dir = get_dir (codes "log_dir") (codes "logs") (codes "logs") (codes "/var/log/sawtooth")

  abbrev parsed_log : Option C → Result (Option C)
  parsed_log none = raised value_error
  parsed_log (some c) = ok (some c)

  abbrev read_log : Text → File → Result (Option C)
  read_log filename missing = ok none
  read_log filename unreadable = raised file_not_found
  read_log filename (contents text) =
      parsed_log
        (if ends_with filename (codes ".yaml") then system.yaml_log text else system.toml_log text)

  -- `get_log_config`
  unfoldable pub get_log_config : Option Text → Result (Option C)
  unfolding get_config_dir ends_with
  get_log_config none = ok none
  get_log_config (some filename) =
      read_log filename (system.file (system.join_path get_config_dir filename))

  abbrev read_table : File → Result (Option (Dict Text))
  read_table missing = ok none
  read_table unreadable = raised file_not_found
  read_table (contents text) = elim (system.toml text) [
    | none ↦ raised value_error
    | some table ↦ ok (some table)
  ]

  -- `get_processor_config`
  unfoldable pub get_processor_config : Option Text → Result (Option (Dict Text))
  unfolding get_config_dir
  get_processor_config none = ok none
  get_processor_config (some filename) =
      read_table (system.file (system.join_path get_config_dir filename))
