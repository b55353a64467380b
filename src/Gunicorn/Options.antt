-- ===== src/Gunicorn/Options.antt =====
-- DjangoWSGIApplication of common/gunicorn/utils.py: the settings of Gunicorn.
use flagsmith_common.Base.{ℕ, Bool, String, Option, none, some, [], ◌∷◌, any, str_eq, if◌then◌else◌}
use flagsmith_common.Base.Text.{lower}
use flagsmith_common.Base.Dict.{Dict, put}

pub data Setting : Type 0 where
  text : String → Setting
  number : ℕ → Setting

-- The environment: texts, and numbers as env.int reads them.
pub record Variables : Type 0 where
  pub access_log_format : Option String
  pub access_log_location : Option String
  pub gunicorn_threads : Option ℕ
  pub gunicorn_timeout : Option ℕ
  pub gunicorn_workers : Option ℕ

abbrev or_default {ℓ} : {A : Type ℓ} → Option A → A → A
or_default none default = default
or_default (some value) default = value

abbrev pub default_access_log_format : String
default_access_log_format =
    "%(h)s %(l)s %(u)s %(t)s \"%(r)s\" %(s)s %(b)s \"%(f)s\" \"%(a)s\" %({origin}i)s %({access-control-allow-origin}o)s"

abbrev pub gunicorn_flagsmith_defaults : (devnull : String) → Variables → Dict Setting
gunicorn_flagsmith_defaults devnull env =
    ("access_log_format", text (or_default env.access_log_format default_access_log_format))
    ∷ ("accesslog", text (or_default env.access_log_location devnull))
    ∷ ("bind", text "0.0.0.0:8000")
    ∷ ("config", text "python:common.gunicorn.conf")
    ∷ ("logger_class", text "common.gunicorn.logging.GunicornJsonCapableLogger")
    ∷ ("statsd_prefix", text "flagsmith.api")
    ∷ ("threads", number (or_default env.gunicorn_threads 1))
    ∷ ("timeout", number (or_default env.gunicorn_timeout 30))
    ∷ ("worker_class", text "sync")
    ∷ ("workers", number (or_default env.gunicorn_workers 1))
    ∷ []

-- __init__: options that are None are left out.
abbrev pub given_options : Dict (Option Setting) → Dict Setting
given_options [] = []
given_options ((key, none) ∷ options) = given_options options
given_options ((key, some value) ∷ options) = (key, value) ∷ given_options options

-- {**defaults, **options}
unfoldable pub merged : Dict Setting → Dict Setting → Dict Setting
unfolding put
merged defaults [] = defaults
merged defaults ((key, value) ∷ options) = merged (put key value defaults) options

abbrev is_key : String → Dict Setting → Bool
is_key key settings = any (λ (entry : String × Setting). str_eq entry.0 key) settings

-- The loop of load_config; `known` are the settings that Gunicorn has at first.
unfoldable pub set_all : Dict Setting → Dict Setting → Dict Setting → Dict Setting
unfolding put lower
set_all known [] cfg = cfg
set_all known ((key, value) ∷ items) cfg =
    let with_value = set_all known items (put (lower key) value cfg) in
    let without = set_all known items cfg in if is_key key known then with_value else without

-- `from_module` is what the configuration module does to the settings.
unfoldable pub load_config :
    (from_module : Dict Setting → Dict Setting)
    → Dict Setting
    → Dict (Option Setting)
    → Dict Setting
    → Dict Setting
unfolding merged set_all
load_config from_module defaults options cfg =
    from_module (set_all cfg (merged defaults (given_options options)) cfg)
