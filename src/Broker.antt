-- ===== src/Broker.antt =====
-- app/broker.py: the options of the broker, and the writing of results as JSON.
pub mod Results
use longshot.Common.{ℕ, Text, codes, Bool, true, [], ◌++◌, ◌⊎◌, inl, inr}
use longshot.Settings.{Floats, Settings}

-- What `RedisStreamBroker` and what is set on it are called with.
pub record BrokerOptions : Type 0 where
  pub url : Text
  pub queue_name : Text
  pub consumer_group_name : Text
  pub consumer_name : Text
  pub xread_block : ℕ
  pub result_url : Text
  pub result_ex_time : ℕ
  pub default_retry_count : ℕ
  pub use_jitter : Bool
  pub use_delay_exponent : Bool

unfoldable pub broker : (f : Floats) → Settings f → BrokerOptions
broker f settings = record {
  url = settings.redis_url;
  queue_name = settings.stream_name;
  consumer_group_name = settings.consumer_group;
  consumer_name = settings.worker_consumer_name;
  xread_block = 2000;
  result_url = settings.redis_url;
  result_ex_time = settings.result_ttl_seconds;
  default_retry_count = 1;
  use_jitter = true;
  use_delay_exponent = true;
}

-- `pydantic.JsonValue`: a scalar by its JSON text, a list, or a dict.
mutual
  pub data JsonValue : Type 0 where
    scalar : (json : Text) → JsonValue
    array : JsonValues → JsonValue
    object : JsonMembers → JsonValue

  pub data JsonValues : Type 0 where
    no_value : JsonValues
    then_value : JsonValue → JsonValues → JsonValues

  pub data JsonMembers : Type 0 where
    no_entry : JsonMembers
    entry : (key : Text) → JsonValue → JsonMembers → JsonMembers

-- The objects of Python, as `json.dumps` tells them apart: those that it writes by itself, a model
-- of Pydantic, with its class and what its `model_dump(mode="json")` returns, and those of any
-- other type.
mutual
  pub data Object : Type 0 where
    native : (type_name json : Text) → Object
    list : Objects → Object
    dict : Members → Object
    model : (class_name : Text) (dump : JsonValue) → Object
    exotic : (type_name : Text) → Object

  pub data Objects : Type 0 where
    no_more : Objects
    then_object : Object → Objects → Objects

  pub data Members : Type 0 where
    no_member : Members
    member : (key : Text) → Object → Members → Members

type_name : Object → Text
type_name (native t json) = t
type_name (list xs) = codes "list"
type_name (dict ms) = codes "dict"
type_name (model class_name dump) = class_name
type_name (exotic t) = t

-- `_pydantic_default`: on the left the text of its TypeError.
unfoldable pub pydantic_default : Object → Text ⊎ JsonValue
unfolding type_name
pydantic_default (model class_name dump) = inr dump
pydantic_default value =
    inl (codes "Object of type " ++ type_name value ++ codes " is not JSON-serializable")

-- The pieces of a list or of a dict, and what makes one text of them.
joined : (Text → Text → Text) → Text ⊎ Text → Text ⊎ Text → Text ⊎ Text
joined put (inl error) rest = inl error
joined put (inr s) (inl error) = inl error
joined put (inr s) (inr t) = inr (put s t)

mapped : {A : Type 0} → (A → Text) → Text ⊎ A → Text ⊎ Text
mapped g (inl error) = inl error
mapped g (inr s) = inr (g s)

-- How `json` writes a list, a dict and a key, given the texts of their parts.
pub record Layout : Type 0 where
  pub list_text : Text → Text
  pub dict_text : Text → Text
  pub next_item : Text → Text → Text
  pub next_member : (key : Text) → Text → Text → Text

module _ (l : Layout) where
  -- What `json.dumps` writes of a JSON value.
  unfoldable mutual
    pub value_text : JsonValue → Text
    value_text (scalar json) = json
    value_text (array xs) = l.list_text (values_text xs)
    value_text (object ms) = l.dict_text (entries_text ms)

    values_text : JsonValues → Text
    values_text no_value = []
    values_text (then_value x xs) = l.next_item (value_text x) (values_text xs)

    entries_text : JsonMembers → Text
    entries_text no_entry = []
    entries_text (entry key x ms) = l.next_member key (value_text x) (entries_text ms)

  -- `dumpb` of `PydanticJSONSerializer`: `json.dumps` asks the hook where it meets an object that
  -- it does not write by itself, and writes what the hook returns.
  unfoldable mutual
    unfolding pydantic_default joined mapped value_text

    pub dumpb : Object → Text ⊎ Text
    dumpb (native t json) = inr json
    dumpb (list xs) = mapped l.list_text (dump_objects xs)
    dumpb (dict ms) = mapped l.dict_text (dump_members ms)
    dumpb (model class_name dump) = mapped value_text (pydantic_default (model class_name dump))
    dumpb (exotic t) = mapped value_text (pydantic_default (exotic t))

    dump_objects : Objects → Text ⊎ Text
    dump_objects no_more = inr []
    dump_objects (then_object x xs) = joined l.next_item (dumpb x) (dump_objects xs)

    dump_members : Members → Text ⊎ Text
    dump_members no_member = inr []
    dump_members (member key x ms) = joined (l.next_member key) (dumpb x) (dump_members ms)
