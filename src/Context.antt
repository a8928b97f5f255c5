-- ===== src/Context.antt =====
-- The accumulator of a flow's data (lang/ts/src/flow-context.ts, flow-key.ts). A key is its name.
pub mod Aliases
use tramli.Prelude.{
  String, ℕ, Bool, true, false, nat_eq, ◌==◌, Option, none, some, [], ◌∷◌, Dict, lookup, insert,
  insert_all, has, get_or,
}
use tramli.FlowError.{Error, missing_context}

-- A value of the dynamic language: `undefined`, a primitive by its printed form, or an object by
-- its identity.
pub data Value : Type 0 where
  undefined : Value
  primitive : String → Value
  object : ℕ → Value

-- `a === b`
unfoldable pub same_value : Value → Value → Bool
same_value undefined undefined = true
same_value (primitive s) (primitive t) = s == t
same_value (object m) (object n) = nat_eq m n
same_value _ _ = false

pub record Context : Type 0 where
  pub flow_id : String
  pub created_at : ℕ
  pub attributes : Dict Value
  pub alias_to_key : Dict String
  pub key_to_alias : Dict String

unfoldable pub new : String → ℕ → Dict Value → Context
new flow_id created_at attributes = record {
  flow_id = flow_id;
  created_at = created_at;
  attributes = attributes;
  alias_to_key = [];
  key_to_alias = [];
}

pub data Found : Type 0 where
  found : Value → Found
  missing : Error → Found

-- A value that is `undefined` counts as missing.
check_value : String → Option Value → Found
check_value key none = missing (missing_context key)
check_value key (some undefined) = missing (missing_context key)
check_value key (some v) = found v

unfoldable pub get : String → Context → Found
unfolding check_value
get key c = check_value key (lookup key c.attributes)

unfoldable pub find : String → Context → Value
find key c = get_or undefined (lookup key c.attributes)

unfoldable pub put : String → Value → Context → Context
put key v c = record c { attributes = insert key v c.attributes }

-- `for (const [key, value] of data) ctx.put(key, value)`
unfoldable pub put_all : Dict Value → Context → Context
put_all extra c = record c { attributes = insert_all extra c.attributes }

unfoldable pub has_key : String → Context → Bool
has_key key c = has key c.attributes

unfoldable pub snapshot : Context → Dict Value
snapshot c = c.attributes

unfoldable pub restore_from : Dict Value → Context → Context
restore_from backup c = record c { attributes = insert_all backup [] }

unfoldable pub register_alias : String → String → Context → Context
register_alias key alias c = record c {
  alias_to_key = insert alias key c.alias_to_key;
  key_to_alias = insert key alias c.key_to_alias;
}

unfoldable pub alias_of : String → Context → Option String
alias_of key c = lookup key c.key_to_alias

unfoldable pub key_of_alias : String → Context → Option String
key_of_alias alias c = lookup alias c.alias_to_key

unfoldable pub export_aliases : Context → Dict String
export_aliases c = c.alias_to_key

unfoldable pub import_aliases : Dict String → Context → Context
import_aliases [] c = c
import_aliases ((alias, key) ∷ rest) c = import_aliases rest (register_alias key alias c)

aliased_from : Dict Value → Context → Dict Value → Dict Value
aliased_from [] c out = out
aliased_from ((key, v) ∷ rest) c out =
    aliased_from rest c (insert (get_or key (lookup key c.key_to_alias)) v out)

-- Values under their aliases; a key with no alias is used as it is.
unfoldable pub to_aliased_data : Context → Dict Value
unfolding aliased_from
to_aliased_data c = aliased_from c.attributes c []

put_aliased : String → Value → Option String → Context → Context
put_aliased alias v none c = c
put_aliased alias v (some key) c = put key v c

-- Values of registered aliases; the others are ignored.
unfoldable pub from_aliased_data : Dict Value → Context → Context
unfolding put_aliased
from_aliased_data [] c = c
from_aliased_data ((alias, v) ∷ rest) c =
    from_aliased_data rest (put_aliased alias v (key_of_alias alias c) c)
