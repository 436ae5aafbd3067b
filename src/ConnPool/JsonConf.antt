-- ===== src/ConnPool/JsonConf.antt =====
-- ConnPool::parseJsonFile: the configuration, with the conversions that its fields' types make. The
-- JSON library's reading of the file is an argument.
use linux_cpp_learn.Prelude.{ℕ, List, Option, none, some, if◌then◌else◌, Bool}
use linux_cpp_learn.Prelude.Int.{ℤ, to_unsigned}

-- What `asInt` and `asString` give for each key.
pub record Root : Type 0 where
  pub is_object : Bool
  pub ip : List ℕ
  pub port : ℤ
  pub user_name : List ℕ
  pub password : List ℕ
  pub db_name : List ℕ
  pub min_size : ℤ
  pub max_size : ℤ
  pub max_idle_time : ℤ
  pub timeout : ℤ

pub record Config : Type 0 where
  pub ip : List ℕ
  pub user : List ℕ
  pub db_name : List ℕ
  pub passwd : List ℕ
  pub port : ℕ
  pub max_size : ℕ
  pub min_size : ℕ
  pub timeout : ℤ
  pub max_idle_time : ℤ

-- The fields as they are set.
unfoldable pub parsed : Root → Config
unfolding to_unsigned
parsed r = record {
  ip = r.ip;
  user = r.user_name;
  db_name = r.db_name;
  passwd = r.password;
  port = to_unsigned 16 r.port;
  max_size = to_unsigned 32 r.max_size;
  min_size = to_unsigned 32 r.min_size;
  timeout = r.timeout;
  max_idle_time = r.max_idle_time;
}

-- `none` where the code returns false and sets no field.
unfoldable pub parse_json_file : Root → Option Config
unfolding parsed
parse_json_file r = if r.is_object then some (parsed r) else none
