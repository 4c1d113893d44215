-- ===== src/Json/Example.antt =====
-- A small JSON with the laws.
use forge_ops_tracker_cpp.Prelude.{
  ℕ, suc, ◌<◌, max, ◌≡◌, ◌≢◌, refl, ap, Bool, true, false, List, [], ◌∷◌, ◌++◌, All, Option, none,
  some, Bytes, bytes_eq, bytes_eq_iff, bytes_eq_refl, arith, if◌then◌else◌,
}
use forge_ops_tracker_cpp.Json.{JsonOps, JsonLaws}

mutual
  pub data Value : Type 0 where
    nothing : Value
    flag : Bool → Value
    number : Bytes → Value
    text : Bytes → Value
    items : Items → Value
    fields : Fields → Value

  pub data Items : Type 0 where
    no_items : Items
    item : Value → Items → Items

  pub data Fields : Type 0 where
    end : Fields
    field : Bytes → Value → Fields → Fields

abbrev null_test : Value → Bool
null_test nothing = true
null_test _ = false

abbrev flag_test : Value → Bool
flag_test (flag b) = true
flag_test _ = false

abbrev object_test : Value → Bool
object_test (fields m) = true
object_test _ = false

abbrev array_test : Value → Bool
array_test (items xs) = true
array_test _ = false

abbrev text_in : Value → Option Bytes
text_in (text t) = some t
text_in _ = none

abbrev number_in : Value → Option Bytes
number_in (number t) = some t
number_in _ = none

abbrev empty_test : Value → Bool
empty_test nothing = true
empty_test (items no_items) = true
empty_test (fields end) = true
empty_test _ = false

abbrev object_from : Value → Option Value
object_from nothing = some (fields end)
object_from (fields m) = some (fields m)
object_from _ = none

abbrev look : Bytes → Fields → Option Value
look key end = none
look key (field k v m) = if bytes_eq k key then some v else look key m

abbrev without : Bytes → Fields → Fields
without key end = end
without key (field k v m) =
    let rest = without key m in if bytes_eq k key then rest else field k v rest

abbrev listed : Fields → List (Bytes × Value)
listed end = []
listed (field k v m) = (k, v) ∷ listed m

abbrev item_list : Items → List Value
item_list no_items = []
item_list (item v xs) = v ∷ item_list xs

abbrev appended : Items → Value → Items
appended no_items v = item v no_items
appended (item w xs) v = item w (appended xs v)

abbrev find_in : Bytes → Value → Option Value
find_in key (fields m) = look key m
find_in key _ = none

abbrev members_in : Value → List (Bytes × Value)
members_in (fields m) = listed m
members_in _ = []

abbrev elements_in : Value → List Value
elements_in (items xs) = item_list xs
elements_in _ = []

-- A member that is set again loses its old value.
abbrev set_in : Bytes → Value → Value → Value
set_in key v (fields m) = fields (field key v (without key m))
set_in key v j = j

abbrev erase_in : Bytes → Value → Value
erase_in key (fields m) = fields (without key m)
erase_in key j = j

abbrev push_in : Value → Value → Value
push_in v (items xs) = items (appended xs v)
push_in v j = j

unfoldable mutual
  pub depth_in : Value → ℕ
  depth_in nothing = 0
  depth_in (flag b) = 0
  depth_in (number t) = 0
  depth_in (text t) = 0
  depth_in (items xs) = suc (items_depth xs)
  depth_in (fields m) = suc (fields_depth m)

  items_depth : Items → ℕ
  items_depth no_items = 0
  items_depth (item v xs) = max (depth_in v) (items_depth xs)

  fields_depth : Fields → ℕ
  fields_depth end = 0
  fields_depth (field k v m) = max (depth_in v) (fields_depth m)

abbrev pub values : JsonOps
values = record {
  Json = Value;
  null = nothing;
  empty_object = fields end;
  empty_array = items no_items;
  is_null = null_test;
  is_object = object_test;
  is_array = array_test;
  text_of = text_in;
  of_text = text;
  number_text = number_in;
  is_boolean = flag_test;
  is_empty = empty_test;
  as_object = object_from;
  of_boolean = flag;
  members = members_in;
  find = find_in;
  set = set_in;
  erase = erase_in;
  elements = elements_in;
  push = push_in;
  depth = depth_in;
}

look-without : (key : Bytes) (m : Fields) → look key (without key m) ≡ none
look-without key end = refl
look-without key (field k v m) = ground (arith, look-without key m)

look-without_other :
    (key other : Bytes) (m : Fields) → key ≢ other → look key (without other m) ≡ look key m
look-without_other key other end ne = refl
look-without_other key other (field k v m) ne =
    ground (arith, bytes_eq_iff k key, bytes_eq_iff k other, look-without_other key other m ne)

set-is_object :
    (key : Bytes) (v j : Value) → object_test j ≡ true → object_test (set_in key v j) ≡ true
set-is_object key v j h = ground arith

erase-is_object :
    (key : Bytes) (j : Value) → object_test j ≡ true → object_test (erase_in key j) ≡ true
erase-is_object key j h = ground arith

set-found :
    (key : Bytes) (v j : Value) → object_test j ≡ true → find_in key (set_in key v j) ≡ some v
set-found key v j h = ground (arith, bytes_eq_refl key)

set-other :
    (key other : Bytes) (v j : Value)
    → object_test j ≡ true
    → key ≢ other
    → find_in key (set_in other v j) ≡ find_in key j
set-other key other v (fields m) h ne =
    ground (arith, bytes_eq_iff other key, look-without_other key other m ne)
set-other key other v nothing h ne = cc
set-other key other v (flag b) h ne = cc
set-other key other v (number t) h ne = cc
set-other key other v (text t) h ne = cc
set-other key other v (items xs) h ne = cc

erase-gone : (key : Bytes) (j : Value) → object_test j ≡ true → find_in key (erase_in key j) ≡ none
erase-gone key (fields m) h = look-without key m
erase-gone key nothing h = cc
erase-gone key (flag b) h = cc
erase-gone key (number t) h = cc
erase-gone key (text t) h = cc
erase-gone key (items xs) h = cc

erase-other :
    (key other : Bytes) (j : Value)
    → object_test j ≡ true
    → key ≢ other
    → find_in key (erase_in other j) ≡ find_in key j
erase-other key other (fields m) h ne = look-without_other key other m ne
erase-other key other nothing h ne = cc
erase-other key other (flag b) h ne = cc
erase-other key other (number t) h ne = cc
erase-other key other (text t) h ne = cc
erase-other key other (items xs) h ne = cc

object-apart :
    (j : Value)
    → object_test j ≡ true
    → (null_test j ≡ false) × (array_test j ≡ false) × (text_in j ≡ none)
object-apart j h = ground arith

array-apart :
    (j : Value)
    → array_test j ≡ true
    → (null_test j ≡ false) × (object_test j ≡ false) × (text_in j ≡ none)
array-apart j h = ground arith

object-kept : (j : Value) → object_test j ≡ true → object_from j ≡ some j
object-kept j h = ground arith

null-apart : (j : Value) → null_test j ≡ true → text_in j ≡ none
null-apart j h = ground arith

item_list-appended : (xs : Items) (v : Value) → item_list (appended xs v) ≡ item_list xs ++ v ∷ []
item_list-appended no_items v = refl
item_list-appended (item w xs) v = ap (◌∷◌ w) (item_list-appended xs v)

push-items :
    (x j : Value)
    → array_test j ≡ true
    → (array_test (push_in x j) ≡ true) × (elements_in (push_in x j) ≡ elements_in j ++ x ∷ [])
push-items x (items xs) h = (refl, item_list-appended xs x)
push-items x nothing h = cc
push-items x (flag b) h = cc
push-items x (number t) h = cc
push-items x (text t) h = cc
push-items x (fields m) h = cc

items_below :
    (n : ℕ) (xs : Items) → items_depth xs < n → All (λ (x : Value). depth_in x < n) (item_list xs)
unfolding depth_in
items_below n no_items h = tt
items_below n (item v xs) h = (omega arith, items_below n xs (omega arith))

fields_below :
    (n : ℕ) (m : Fields)
    → fields_depth m < n
    → All (λ (p : Bytes × Value). depth_in p.1 < n) (listed m)
unfolding depth_in
fields_below n end h = tt
fields_below n (field k v m) h = (omega arith, fields_below n m (omega arith))

members_below :
    (j : Value)
    → object_test j ≡ true
    → All (λ (p : Bytes × Value). depth_in p.1 < depth_in j) (members_in j)
unfolding depth_in
members_below (fields m) h = fields_below (suc (fields_depth m)) m (omega arith)
members_below nothing h = cc
members_below (flag b) h = cc
members_below (number t) h = cc
members_below (text t) h = cc
members_below (items xs) h = cc

elements_below :
    (j : Value) → array_test j ≡ true → All (λ (x : Value). depth_in x < depth_in j) (elements_in j)
unfolding depth_in
elements_below (items xs) h = items_below (suc (items_depth xs)) xs (omega arith)
elements_below nothing h = cc
elements_below (flag b) h = cc
elements_below (number t) h = cc
elements_below (text t) h = cc
elements_below (fields m) h = cc

pub values_lawful : JsonLaws values
values_lawful = record {
  empty-object = refl;
  find-empty = λ key. refl;
  text_of-of_text = λ t. refl;
  set-object = set-is_object;
  erase-object = erase-is_object;
  find-set = set-found;
  find-set_other = set-other;
  find-erase = erase-gone;
  find-erase_other = erase-other;
  object-kind = object-apart;
  array-kind = array-apart;
  text-kind = λ t. (refl, refl, refl);
  as_object-object = object-kept;
  null-null = refl;
  null-kind = null-apart;
  empty-array = (refl, refl);
  push-elements = push-items;
  depth-members = members_below;
  depth-elements = elements_below;
}
