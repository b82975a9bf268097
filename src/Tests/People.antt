-- ===== src/Tests/People.antt =====
-- A model of flusher.go for the tests: one table of people, with one cached query by name.
use beeorm.Prelude.{
  ℕ, Bool, true, false, not, none, some, List, [], ◌∷◌, ◌++◌, Text, codes, format_uint, length,
  Result, if◌then◌else◌, ◌==◌,
}
use beeorm.Db.{done}
use beeorm.Flusher.World.{Ref, Schema, CachedQueryDefinition, Entity, DirtyBind, Model, World}

abbrev pub name_column : Text
name_column = codes "Name"

abbrev pub by_name : CachedQueryDefinition
by_name = record { tracked_fields = name_column ∷ []; query_fields = name_column ∷ [] }

abbrev pub people_schema : Schema
people_schema = record {
  table_name = codes "people";
  mysql_pool_name = codes "default";
  local_cache = some (codes "default");
  redis_cache = none;
  config = record {
    cache_prefix = codes "p";
    has_local_cache = true;
    has_redis_cache = false;
    has_request_cache = false;
  };
  has_uuid = false;
  has_fake_delete = false;
  has_log = false;
  skip_logs = [];
  cached_indexes_all = (codes "ByName", by_name) ∷ [];
}

-- The content of a person: the name in the entity, and the name in the table, both as numbers.
abbrev pub Person : Type 0
Person = ℕ × ℕ

abbrev pub changed_name : Entity Person ℕ → Bool
changed_name e = if e.in_db then not (e.content.0 == e.content.1) else true

abbrev pub name_bind : Entity Person ℕ → DirtyBind Person ℕ
name_bind e = record {
  bind = (name_column, e.content.0) ∷ [];
  sql_bind = (name_column, format_uint e.content.0) ∷ [];
  current = (name_column, e.content.1) ∷ [];
  is_dirty = changed_name e;
  filled = e.content;
}

abbrev pub attributes_key : List ℕ → Text
attributes_key [] = []
attributes_key (v ∷ vs) = 58 ∷ (v ∷ attributes_key vs)

-- The servers answer a statement with `answer`.
abbrev pub people_with : Result ℕ → Model
people_with answer = record {
  Content = Person;
  Value = ℕ;
  nil_value = 0;
  uint_value = λ id. id;
  schema = λ t. people_schema;
  autoincrement = λ pool. 1;
  build_dirty_bind = λ ids e. name_bind e;
  serialize = λ ids e. e.id ∷ (e.content.0 ∷ []);
  exec = λ sent pool sql. answer;
  begins = λ sent pool. done;
  commits = λ sent pool. done;
  rolls_back = λ sent pool. done;
  get_cache_key_search = λ schema name values. name ++ attributes_key values;
  log_event = λ schema id before changes meta. [];
  redis_stream_pools = [];
  log_meta_data = none;
  has_request_cache = false;
}

abbrev pub new_person : Entity Person ℕ
new_person = record {
  table = 0;
  id = 0;
  in_db = false;
  loaded = false;
  delete = false;
  fake_delete = false;
  ref_one = [];
  ref_many = [];
  log_meta = none;
  content = (7, 0);
  binary = [];
}

-- Entity 0 is new, entity 1 is a loaded row whose name has changed, entity 2 refers to itself, and
-- entity 3 is new and refers to entity 1.
abbrev pub entities : Ref → Entity Person ℕ
entities r =
    if r == 0
    then new_person
    else if r == 1
    then record new_person { id = 5; in_db = true; loaded = true; content = (8, 7) }
    else if r == 2
    then record new_person { ref_one = none ∷ (some 2 ∷ []) }
    else record new_person { ref_one = some 1 ∷ [] }

abbrev pub world_of : (answer : Result ℕ) → List Ref → World (people_with answer)
world_of answer tracked = record {
  store = entities;
  uuid_state = record { code_start_time = 0; uuid_server_id = 0; uuid_counter = 0 };
  tracked_entities = tracked;
  tracked_entities_counter = length tracked;
  redis_flusher = none;
  shared = false;
  update_sqls = [];
  delete_binds = [];
  local_cache_deletes = [];
  local_cache_sets = [];
  engine = record {
    dbs = [];
    after_commit_local_cache_sets = none;
    after_commit_redis_flusher = none;
    published = [];
  };
  history = [];
}
