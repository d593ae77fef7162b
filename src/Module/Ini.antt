-- ===== src/Module/Ini.antt =====
-- The INI entries of src/php_handlebars.c, and the globals that they write at the module's start.
use php_handlebars.Base.{◌≡◌, refl, Bool, Option, none, some, List, [], ◌∷◌, Text, lit}
use php_handlebars.Zend.{ℤ}
use php_handlebars.Module.{Globals}

-- The fields of the globals that an entry names, with their `OnUpdate` functions.
pub data LongField : Type 0 where
  pool_size cache_max_size cache_max_entries cache_max_age : LongField

pub data BoolField : Type 0 where
  cache_enable cache_enable_cli cache_stat : BoolField

pub data StringField : Type 0 where
  cache_backend cache_save_path : StringField

pub data OnUpdate : Type 0 where
  on_update_long : LongField → OnUpdate
  on_update_bool : BoolField → OnUpdate
  on_update_string : StringField → OnUpdate

-- `PHP_INI_ALL` and `PHP_INI_SYSTEM`
pub data Modifiable : Type 0 where
  ini_all ini_system : Modifiable

pub record IniEntry : Type 0 where
  pub name : Text
  pub value : Text
  pub modifiable : Modifiable
  pub on_modify : OnUpdate

-- `PHP_INI_BEGIN` to `PHP_INI_END`
abbrev pub entry : Text → Text → Modifiable → OnUpdate → IniEntry
entry name value m u = record { name = name; value = value; modifiable = m; on_modify = u }

unfoldable pub ini_entries : List IniEntry
ini_entries =
    entry (lit "handlebars.pool_size") (lit "0") ini_all (on_update_long pool_size)
    ∷ entry (lit "handlebars.cache.enable") (lit "1") ini_system (on_update_bool cache_enable)
    ∷ entry (lit "handlebars.cache.enable_cli") (lit "0") ini_system
        (on_update_bool cache_enable_cli)
    ∷ entry (lit "handlebars.cache.backend") (lit "mmap") ini_system
        (on_update_string cache_backend)
    ∷ entry (lit "handlebars.cache.max_size") (lit "67108864") ini_system
        (on_update_long cache_max_size)
    ∷ entry (lit "handlebars.cache.max_entries") (lit "349529") ini_system
        (on_update_long cache_max_entries)
    ∷ entry (lit "handlebars.cache.max_age") (lit "-1") ini_system (on_update_long cache_max_age)
    ∷ entry (lit "handlebars.cache.save_path") (lit "/tmp/php-handlebars-cache") ini_system
        (on_update_string cache_save_path)
    ∷ entry (lit "handlebars.cache.stat") (lit "1") ini_system (on_update_bool cache_stat)
    ∷ []

-- PHP's configuration: what its files and its command line say, and how it reads numbers and
-- switches.
pub record Configuration : Type 0 where
  pub configured : Text → Option Text
  pub to_long : Text → ℤ
  pub to_bool : Text → Bool

-- The value of an entry that is found in the configuration, else its own.
abbrev pub value_or : Option Text → Text → Text
value_or none value = value
value_or (some v) value = v

module _ {Cache : Type 0} where
  unfoldable pub update_long : LongField → ℤ → Globals Cache → Globals Cache
  update_long pool_size n g = record g { pool_size = n }
  update_long cache_max_size n g = record g { cache_max_size = n }
  update_long cache_max_entries n g = record g { cache_max_entries = n }
  update_long cache_max_age n g = record g { cache_max_age = n }

  unfoldable pub update_bool : BoolField → Bool → Globals Cache → Globals Cache
  update_bool cache_enable b g = record g { cache_enable = b }
  update_bool cache_enable_cli b g = record g { cache_enable_cli = b }
  update_bool cache_stat b g = record g { cache_stat = b }

  unfoldable pub update_string : StringField → Text → Globals Cache → Globals Cache
  update_string cache_backend s g = record g { cache_backend = s }
  update_string cache_save_path s g = record g { cache_save_path = s }

  unfoldable pub update : Configuration → OnUpdate → Text → Globals Cache → Globals Cache
  unfolding update_long update_bool update_string
  update c (on_update_long f) value g = update_long f (c.to_long value) g
  update c (on_update_bool f) value g = update_bool f (c.to_bool value) g
  update c (on_update_string f) value g = update_string f value g

  unfoldable pub register_entries : Configuration → List IniEntry → Globals Cache → Globals Cache
  unfolding update
  register_entries c [] g = g
  register_entries c (e ∷ es) g =
      register_entries c es (update c e.on_modify (value_or (c.configured e.name) e.value) g)

  -- `REGISTER_INI_ENTRIES()`
  unfoldable pub register_ini_entries : Configuration → Globals Cache → Globals Cache
  unfolding register_entries ini_entries
  register_ini_entries c g = register_entries c ini_entries g

-- What an option of the configuration is.
abbrev pub setting : Configuration → Text → Text → Text
setting c name value = value_or (c.configured name) value

-- The registration of the entries leaves nothing of what the globals' constructor or anything before
-- had set but the cache itself: each other field is what the configuration says, read as the field's
-- type, and where it says nothing the entry's default.
pub register_ini_entries-fields :
    {Cache : Type 0} (c : Configuration) (g : Globals Cache)
    → register_ini_entries c g ≡ record {
      pool_size = c.to_long (setting c (lit "handlebars.pool_size") (lit "0"));
      cache_enable = c.to_bool (setting c (lit "handlebars.cache.enable") (lit "1"));
      cache_enable_cli = c.to_bool (setting c (lit "handlebars.cache.enable_cli") (lit "0"));
      cache_backend = setting c (lit "handlebars.cache.backend") (lit "mmap");
      cache_save_path =
          setting c (lit "handlebars.cache.save_path") (lit "/tmp/php-handlebars-cache");
      cache_max_size = c.to_long (setting c (lit "handlebars.cache.max_size") (lit "67108864"));
      cache_max_entries = c.to_long (setting c (lit "handlebars.cache.max_entries") (lit "349529"));
      cache_max_age = c.to_long (setting c (lit "handlebars.cache.max_age") (lit "-1"));
      cache_stat = c.to_bool (setting c (lit "handlebars.cache.stat") (lit "1"));
      cache = g.cache;
    }
unfolding register_ini_entries
register_ini_entries-fields c g = refl
