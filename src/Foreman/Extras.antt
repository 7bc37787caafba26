-- ===== src/Foreman/Extras.antt =====
-- src/ai_pr_orchestrator/v3/foreman.py: reading and writing the JSON that the foreman keeps in the
-- extras of a state. A missing attribute of a value of another type is a `type_error`.
use aipro.Prelude.{
  ℕ, String, Bool, true, false, Option, none, some, List, [], ◌∷◌, ◌++◌, not, ◌&&◌, ◌||◌, ◌==◌,
  string_eq, nat_eq, if◌then◌else◌, contains, Result, ok, err, key_error, type_error, domain_error,
  ◌>>=◌, ◌>>◌, raise_if,
}
use aipro.Domain.{
  Value, null, flag, num, text, stamp, arr, obj, Items, nil, cons, Fields, end, entry,
}

unfoldable pub get_field : String → Fields → Option Value
get_field k end = none
get_field k (entry j v fs) = if j == k then some v else get_field k fs

unfoldable pub put_field : String → Value → Fields → Fields
put_field k v end = entry k v end
put_field k v (entry j w fs) = if j == k then entry j v fs else entry j w (put_field k v fs)

-- `{**fields, **more}`
unfoldable pub merge_fields : Fields → Fields → Fields
merge_fields fs end = fs
merge_fields fs (entry k v more) = merge_fields (put_field k v fs) more

abbrev pub keys : Fields → List String
keys end = []
keys (entry k v fs) = k ∷ keys fs

unfoldable pub length_fields : Fields → ℕ
length_fields end = 0
length_fields (entry k v fs) = aipro.Prelude.suc (length_fields fs)

-- `==` on two values: a dictionary has no order. That Python holds True for 1 is left out.
unfoldable mutual
  pub same_value : Value → Value → Bool
  same_value null null = true
  same_value (flag a) (flag b) = if a then b else not b
  same_value (num m) (num n) = m == n
  same_value (text s) (text t) = s == t
  same_value (stamp m) (stamp n) = m == n
  same_value (arr xs) (arr ys) = same_items xs ys
  same_value (obj fs) (obj gs) = length_fields fs == length_fields gs && within_fields fs gs
  same_value _ _ = false

  pub same_items : Items → Items → Bool
  same_items nil nil = true
  same_items (cons x xs) (cons y ys) = same_value x y && same_items xs ys
  same_items _ _ = false

  pub within_fields : Fields → Fields → Bool
  within_fields end gs = true
  within_fields (entry k v fs) gs =
      elim (get_field k gs) [ none ↦ false | some w ↦ same_value v w ] && within_fields fs gs

-- `a.get(k) == b.get(k)`, and `extras.get(k) == value` for a text
abbrev pub same_entry : Option Value → Option Value → Bool
same_entry none none = true
same_entry none (some w) = elim w [ null ↦ true | _ ↦ false ]
same_entry (some v) none = elim v [ null ↦ true | _ ↦ false ]
same_entry (some v) (some w) = same_value v w

abbrev pub is_text : Option Value → String → Bool
is_text (some (text t)) s = t == s
is_text _ s = false

-- `extras.get(k)` where a text is expected, and whether it is not None
abbrev pub text_entry : Option Value → Option String
text_entry (some (text t)) = some t
text_entry _ = none

abbrev pub num_entry : Option Value → Option ℕ
num_entry (some (num n)) = some n
num_entry _ = none

abbrev pub is_set : Option Value → Bool
is_set none = false
is_set (some null) = false
is_set (some v) = true

-- `extras.get(k, {})` as a dictionary
abbrev pub fields_or_end : Option Value → Result Fields
fields_or_end none = ok end
fields_or_end (some (obj fs)) = ok fs
fields_or_end (some v) = err type_error

-- `record[k]` as a dictionary
abbrev pub item_fields : String → Value → Result Fields
item_fields k (obj fs) = elim (get_field k fs) [
  | none ↦ err key_error
  | some v ↦ elim v [ obj gs ↦ ok gs | _ ↦ err type_error ]
]
item_fields k v = err type_error

abbrev pub union : List String → List String → List String
union [] ys = ys
union (x ∷ xs) ys = union xs (if contains x ys then ys else ys ++ x ∷ [])

-- `{lane for wave in waves for lane in wave["lanes"]}`, without an order of a set
unfoldable pub wave_lanes : Fields → Result (List String)
wave_lanes end = ok []
wave_lanes (entry k wave waves) = do
  lanes ← item_fields "lanes" wave
  more ← wave_lanes waves
  ok (union (keys lanes) more)

abbrev pub field_text : Option Value → Result String
field_text none = err type_error
field_text (some (text t)) = if t == "" then err domain_error else ok t
field_text (some v) = err domain_error

-- `ModelAssignment.from_dict(extras[k])`: its lane and its model
abbrev pub assignment_from_dict : Option Value → Result (String × String)
assignment_from_dict none = err key_error
assignment_from_dict (some (obj fs)) = do
  lane ← field_text (get_field "lane" fs)
  model_ref ← field_text (get_field "model_ref" fs)
  ok (lane, model_ref)
assignment_from_dict (some v) = err type_error
