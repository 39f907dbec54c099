-- ===== src/Broker/Results.antt =====
-- app/broker.py: which results `dumpb` writes, and what it says of the others.
use longshot.Common.{◌≡◌, refl, ap, ap₂, Text, codes, List, [], ◌∷◌, ◌++◌, ◌⊎◌, inl, inr}
use longshot.Broker.{
  JsonValue, scalar, array, object, JsonValues, no_value, then_value, JsonMembers, no_entry, entry,
  Object, native, list, dict, model, exotic, Objects, no_more, then_object, Members, no_member,
  member, type_name, pydantic_default, joined, mapped, Layout, value_text, values_text,
  entries_text, dumpb, dump_objects, dump_members,
}

-- An object with each model replaced by its dump, as a JSON value, whatever else stands in it.
unfoldable mutual
  pub plain : Object → JsonValue
  plain (native t json) = scalar json
  plain (list xs) = array (plain_objects xs)
  plain (dict ms) = object (plain_members ms)
  plain (model class_name dump) = dump
  plain (exotic t) = scalar []

  plain_objects : Objects → JsonValues
  plain_objects no_more = no_value
  plain_objects (then_object x xs) = then_value (plain x) (plain_objects xs)

  plain_members : Members → JsonMembers
  plain_members no_member = no_entry
  plain_members (member key x ms) = entry key (plain x) (plain_members ms)

-- The types, in the order of their places, of the parts that neither `json` nor the hook can write.
unfoldable mutual
  pub exotics : Object → List Text
  exotics (native t json) = []
  exotics (list xs) = exotics_objects xs
  exotics (dict ms) = exotics_members ms
  exotics (model class_name dump) = []
  exotics (exotic t) = t ∷ []

  exotics_objects : Objects → List Text
  exotics_objects no_more = []
  exotics_objects (then_object x xs) = exotics x ++ exotics_objects xs

  exotics_members : Members → List Text
  exotics_members no_member = []
  exotics_members (member key x ms) = exotics x ++ exotics_members ms

abbrev message : Text → Text
message t = codes "Object of type " ++ t ++ codes " is not JSON-serializable"

-- A certain text where there is no such part, and else the TypeError of the first.
pub Reports : Text → List Text → Text ⊎ Text → Type 0
Reports written [] result = result ≡ inr written
Reports written (t ∷ ts) result = result ≡ inl (message t)

mapped-Reports :
    (g : Text → Text) (s : Text) (ts : List Text) (o : Text ⊎ Text)
    → Reports s ts o
    → Reports (g s) ts (mapped g o)
unfolding Reports mapped
mapped-Reports g s [] o h = ap (mapped g) h
mapped-Reports g s (t ∷ ts) o h = ap (mapped g) h

joined-Reports :
    (put : Text → Text → Text) (s u : Text) (ts us : List Text) (o p : Text ⊎ Text)
    → Reports s ts o
    → Reports u us p
    → Reports (put s u) (ts ++ us) (joined put o p)
unfolding Reports joined
joined-Reports put s u [] [] o p h k = ap₂ (joined put) h k
joined-Reports put s u [] (v ∷ us) o p h k = ap₂ (joined put) h k
joined-Reports put s u (t ∷ ts) us o p h k = ap (λ q. joined put q p) h

module _ (l : Layout) where
  mutual
    unfolding exotics plain value_text dumpb Reports mapped pydantic_default type_name

    dumpb_lem : (x : Object) → Reports (value_text l (plain x)) (exotics x) (dumpb l x)
    dumpb_lem (native t json) = refl
    dumpb_lem (list xs) =
        mapped-Reports l.list_text (values_text l (plain_objects xs)) (exotics_objects xs) _
          (objects_lem xs)
    dumpb_lem (dict ms) =
        mapped-Reports l.dict_text (entries_text l (plain_members ms)) (exotics_members ms) _
          (members_lem ms)
    dumpb_lem (model class_name dump) = refl
    dumpb_lem (exotic t) = refl

    objects_lem :
        (xs : Objects)
        → Reports (values_text l (plain_objects xs)) (exotics_objects xs) (dump_objects l xs)
    objects_lem no_more = refl
    objects_lem (then_object x xs) =
        joined-Reports l.next_item (value_text l (plain x)) (values_text l (plain_objects xs))
          (exotics x) (exotics_objects xs) _ _ (dumpb_lem x) (objects_lem xs)

    members_lem :
        (ms : Members)
        → Reports (entries_text l (plain_members ms)) (exotics_members ms) (dump_members l ms)
    members_lem no_member = refl
    members_lem (member key x ms) =
        joined-Reports (l.next_member key) (value_text l (plain x))
          (entries_text l (plain_members ms)) (exotics x) (exotics_members ms) _ _ (dumpb_lem x)
          (members_lem ms)

  -- The serializer of the broker writes an object, whatever models of Pydantic stand in it and
  -- however deep, as the JSON of the object with each model replaced by its `model_dump`, if each
  -- other part is one that `json` writes itself. Else it raises the TypeError of the hook, which
  -- names the type of the first part that is neither.
  pub dumpb-Reports : (x : Object) → Reports (value_text l (plain x)) (exotics x) (dumpb l x)
  dumpb-Reports x = dumpb_lem x
