-- ===== src/Tests/Values.antt =====
-- Values of a configuration that can be run: an object is its members, the newest first.
use hypertube.Common.{
  ℤ, ◌≡◌, ◌≢◌, refl, ap, Bool, List, [], ◌∷◌, Option, none, some, Text, ◌==◌, text_eq,
  if◌then◌else◌,
}
use hypertube.Config.Json.{JsonKind, null, boolean, number_integer, string, array, object, Json}

mutual
  pub data Value : Type 0 where
    nothing : Value
    flag : Bool → Value
    number : ℤ → Value
    text : Text → Value
    values : Values → Value
    members : Members → Value

  pub data Values : Type 0 where
    no_values : Values
    a_value : Value → Values → Values

  pub data Members : Type 0 where
    no_members : Members
    a_member : Text → Value → Members → Members

abbrev pub kind_of : Value → JsonKind
kind_of nothing = null
kind_of (flag b) = boolean
kind_of (number n) = number_integer
kind_of (text s) = string
kind_of (values vs) = array
kind_of (members ms) = object

abbrev pub from_list : List Value → Values
from_list [] = no_values
from_list (v ∷ vs) = a_value v (from_list vs)

abbrev pub to_list : Values → List Value
to_list no_values = []
to_list (a_value v vs) = v ∷ to_list vs

pub to_list-from_list : (vs : List Value) → to_list (from_list vs) ≡ vs
to_list-from_list [] = refl
to_list-from_list (v ∷ vs) = ap (λ ws. v ∷ ws) (to_list-from_list vs)

abbrev pub look : Text → Members → Option Value
look k no_members = none
look k (a_member l v ms) = if l == k then some v else look k ms

abbrev pub value_member : Text → Value → Option Value
value_member k (members ms) = look k ms
value_member k _ = none

abbrev pub members_of : Value → Members
members_of (members ms) = ms
members_of _ = no_members

abbrev pub value_put : Text → Value → Value → Value
value_put k v j = members (a_member k v (members_of j))

abbrev pub value_bool : Value → Option Bool
value_bool (flag b) = some b
value_bool _ = none

abbrev pub value_int : Value → Option ℤ
value_int (number n) = some n
value_int _ = none

abbrev pub value_text : Value → Option Text
value_text (text s) = some s
value_text _ = none

abbrev pub value_items : Value → Option (List Value)
value_items (values vs) = some (to_list vs)
value_items _ = none

pub put_law :
    (k l : Text) (v j : Value)
    → kind_of j ≡ object
    → value_member l (value_put k v j) ≡ (if k == l then some v else value_member l j)
put_law k l v nothing h = cc
put_law k l v (flag b) h = cc
put_law k l v (number n) h = cc
put_law k l v (text s) h = cc
put_law k l v (values vs) h = cc
put_law k l v (members ms) h = refl

pub int_law : (j : Value) → kind_of j ≡ number_integer → (n : ℤ) × (value_int j ≡ some n)
int_law nothing h = cc
int_law (flag b) h = cc
int_law (number n) h = (n, refl)
int_law (text s) h = cc
int_law (values vs) h = cc
int_law (members ms) h = cc

pub bool_law : (j : Value) → kind_of j ≡ boolean → (b : Bool) × (value_bool j ≡ some b)
bool_law nothing h = cc
bool_law (flag b) h = (b, refl)
bool_law (number n) h = cc
bool_law (text s) h = cc
bool_law (values vs) h = cc
bool_law (members ms) h = cc

pub other_law : (k : Text) (j : Value) → kind_of j ≢ object → value_member k j ≡ none
other_law k nothing h = refl
other_law k (flag b) h = refl
other_law k (number n) h = refl
other_law k (text s) h = refl
other_law k (values vs) h = refl
other_law k (members ms) h = absurd (h refl)

instance abbrev pub value_json : Json Value
value_json = record {
  kind = kind_of;
  empty_object = members no_members;
  null_value = nothing;
  member = value_member;
  put = value_put;
  of_bool = flag;
  of_int = number;
  of_text = text;
  of_list = λ vs. values (from_list vs);
  as_bool = value_bool;
  as_int = value_int;
  as_text = value_text;
  items = value_items;
  kind_empty = refl;
  kind_null = refl;
  kind_put = λ k v j. refl;
  member_empty = λ k. refl;
  member_put = put_law;
  kind_of_bool = λ b. refl;
  kind_of_int = λ n. refl;
  kind_of_text = λ s. refl;
  kind_of_list = λ vs. refl;
  as_int_integer = int_law;
  as_bool_boolean = bool_law;
  member_other = other_law;
  as_bool_of = λ b. refl;
  as_int_of = λ n. refl;
  as_text_of = λ s. refl;
  items_of = λ vs. ap some (to_list-from_list vs);
}
