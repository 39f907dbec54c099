-- ===== src/Samples/BrokerTests.antt =====
-- A result with a model and, behind it, a set, which cannot be written.
use longshot.Common.{◌≡◌, refl, codes, ◌++◌, inl, inr}
use longshot.Broker.{
  scalar, object, no_entry, entry, Object, list, dict, model, exotic, no_more, then_object,
  no_member, member, Layout, value_text, dumpb,
}
use longshot.Broker.Results.{plain, exotics, Reports, dumpb-Reports}

abbrev layout : Layout
layout = record {
  list_text = λ t. codes "[" ++ t ++ codes "]";
  dict_text = λ t. codes "{" ++ t ++ codes "}";
  next_item = λ s t. s ++ codes "," ++ t;
  next_member = λ key s t. key ++ codes ":" ++ s ++ codes "," ++ t;
}

abbrev ok : Object
ok = model (codes "TaskResult") (object (entry (codes "status") (scalar (codes "ok")) no_entry))

-- Written with its model.
written :
    dumpb layout (dict (member (codes "return_value") ok no_member))
    ≡ inr (codes "{return_value:{status:ok,},}")
unfolding dumpb
written = refl

abbrev result : Object
result = dict (
    member (codes "return_value") ok
      (member (codes "log") (list (then_object (exotic (codes "set")) no_more)) no_member))

dumpb-result : dumpb layout result ≡ inl (codes "Object of type set is not JSON-serializable")
unfolding dumpb
dumpb-result = refl

dumpb-Reports_example :
    Reports (value_text layout (plain result)) (exotics result) (dumpb layout result)
dumpb-Reports_example = dumpb-Reports layout result
