-- ===== src/Kube/Enrich/Ranges.antt =====
-- The order in which Go ranges over a map is not seen in the texts that Enrich.go makes of it.
use Prim.Native.String.{◌++◌ as str_append}
use l8collector.Prelude.{
  ◌≡◌, refl, ◌∙◌, sym, ap, false, Option, none, some, Bool-cases, List, [], ◌∷◌, String, ◌==◌,
  arith, if◌then◌else◌, string_eq, inl, inr,
}
use l8collector.Text.{join}
use l8collector.Text.Sorting.{text_leb, insert_text, sort_texts, strip_prefix, insert_text_comm}
use l8collector.Kube.Value.{Value, Fields, field, field_get}
use l8collector.Kube.Enrich.Access.{
  Formats, sprint, selector_parts, keys_of, map_to_selector_string,
}
use l8collector.Kube.Enrich.Nodes.{add_role, roles_of, roles_text, labels_text}

-- One map in two orders: entries of different keys that stand side by side are swapped.
pub data Reordered : Fields → Fields → Type 0 where
  same : {m : Fields} → Reordered m m
  keep :
      {k : String} {v : Value} {m n : Fields}
      → Reordered m n
      → Reordered (field k v m) (field k v n)
  swap :
      {k j : String} {v w : Value} {m : Fields}
      → (k == j) ≡ false
      → Reordered (field k v (field j w m)) (field j w (field k v m))
  after : {a b c : Fields} → Reordered a b → Reordered b c → Reordered a c

field_get-Reordered : {m n : Fields} (k : String) → Reordered m n → field_get k m ≡ field_get k n
unfolding field_get
field_get-Reordered k same = refl
field_get-Reordered k (keep {k = i} {v} r) =
    ap (λ x. if i == k then some v else x) (field_get-Reordered k r)
field_get-Reordered k (swap {k = i} {j} d) =
    ground (arith, string_eq.same_iff i k, string_eq.same_iff j k, string_eq.same_iff i j)
field_get-Reordered k (after r s) = field_get-Reordered k r ∙ field_get-Reordered k s

sorted_keys-Reordered :
    {m n : Fields} → Reordered m n → sort_texts (keys_of m) ≡ sort_texts (keys_of n)
unfolding sort_texts keys_of
sorted_keys-Reordered same = refl
sorted_keys-Reordered (keep {k} r) = ap (insert_text k) (sorted_keys-Reordered r)
sorted_keys-Reordered (swap {k} {j} {m} d) = insert_text_comm k j (sort_texts (keys_of m))
sorted_keys-Reordered (after r s) = sorted_keys-Reordered r ∙ sorted_keys-Reordered s

selector_parts-cong :
    (f : Formats) (m n : Fields) (ks : List String)
    → ((k : String) → field_get k m ≡ field_get k n)
    → selector_parts f m ks ≡ selector_parts f n ks
unfolding selector_parts
selector_parts-cong f m n [] e = refl
selector_parts-cong f m n (k ∷ ks) e =
    λ i. str_append k (str_append "=" (sprint f (e k i))) ∷ selector_parts-cong f m n ks e i

map_to_selector_string-Reordered :
    (f : Formats) {m n : Fields}
    → Reordered m n
    → map_to_selector_string f m ≡ map_to_selector_string f n
unfolding map_to_selector_string
map_to_selector_string-Reordered f {m} {n} r = ap (join ",") (
    ap (selector_parts f m) (sorted_keys-Reordered r)
    ∙ selector_parts-cong f m n (sort_texts (keys_of n)) (λ k. field_get-Reordered k r))

-- a role that is inserted
insert_role : Option String → List String → List String
insert_role none xs = xs
insert_role (some r) xs = insert_text r xs

sort-add_role :
    (o : Option String) (xs : List String)
    → sort_texts (add_role o xs) ≡ insert_role o (sort_texts xs)
unfolding sort_texts insert_role
sort-add_role none xs = refl
sort-add_role (some r) xs = refl

insert_role_comm :
    (o p : Option String) (xs : List String)
    → insert_role o (insert_role p xs) ≡ insert_role p (insert_role o xs)
unfolding insert_role
insert_role_comm none p xs = refl
insert_role_comm (some r) none xs = refl
insert_role_comm (some r) (some s) xs = insert_text_comm r s xs

sorted_roles-Reordered :
    {m n : Fields} → Reordered m n → sort_texts (roles_of m) ≡ sort_texts (roles_of n)
unfolding roles_of
sorted_roles-Reordered same = refl
sorted_roles-Reordered (keep {k} {m} {n} r) =
    let o = strip_prefix "node-role.kubernetes.io/" k in
    sort-add_role o (roles_of m)
    ∙ ap (insert_role o) (sorted_roles-Reordered r)
    ∙ sym (sort-add_role o (roles_of n))
sorted_roles-Reordered (swap {k} {j} {m} d) =
    let o = strip_prefix "node-role.kubernetes.io/" k in
    let p = strip_prefix "node-role.kubernetes.io/" j in
    sort-add_role o (add_role p (roles_of m))
    ∙ ap (insert_role o) (sort-add_role p (roles_of m))
    ∙ insert_role_comm o p (sort_texts (roles_of m))
    ∙ ap (insert_role p) (sym (sort-add_role o (roles_of m)))
    ∙ sym (sort-add_role p (add_role o (roles_of m)))
sorted_roles-Reordered (after r s) = sorted_roles-Reordered r ∙ sorted_roles-Reordered s

joined : List String → String
joined [] = "<none>"
joined (p ∷ ps) = join "," (p ∷ ps)

insert_text-joined :
    (a : String) (xs : List String) → join "," (insert_text a xs) ≡ joined (insert_text a xs)
unfolding insert_text joined
insert_text-joined a [] = refl
insert_text-joined a (x ∷ xs) = elim (Bool-cases (text_leb a x)) [
  | inl e ↦ rw e refl
  | inr e ↦ rw e refl
]

roles_text-joined : (xs : List String) → roles_text xs ≡ joined (sort_texts xs)
unfolding sort_texts joined
roles_text-joined [] = refl
roles_text-joined (x ∷ xs) = insert_text-joined x (sort_texts xs)

-- The text of a selector and the text of a node's roles are those of the map, in whatever order the range
-- meets its entries.
pub selector_and_roles-Reordered :
    (f : Formats) (m n : Fields)
    → Reordered m n
    → (map_to_selector_string f m ≡ map_to_selector_string f n)
      × (labels_text (some m) ≡ labels_text (some n))
selector_and_roles-Reordered f m n r = (
  map_to_selector_string-Reordered f r,
  roles_text-joined (roles_of m)
      ∙ ap joined (sorted_roles-Reordered r)
      ∙ sym (roles_text-joined (roles_of n)),
)
