-- ===== src/Examples/Files.antt =====
-- A small ini library: files of lines `key = value`, written only where they are read back as they
-- are, and the laws that the operator relies on.
use Prim.Native.String.{slice, find, len}
use rabbitmq_operator.Prelude.{
  ℕ, zero, suc, ◌+◌, ◌≡◌, refl, sym, ap, ◌∙◌, subst, String, Bool, true, false, ◌&&◌, List, [], ◌∷◌,
  ◌++◌, Map, insert, delete, ◌==◌, ◌<>◌, if◌then◌else◌, eqb, ltb, eq_iff, eq_refl, arith,
  Bool-cases, inl, inr,
}
use rabbitmq_operator.Kube.{Outcome, ok, err, plain}
use rabbitmq_operator.Cluster.{plugin_in}
use rabbitmq_operator.Builders.Meta.{ok_injective}
use rabbitmq_operator.Builders.Config.{Ini}
use rabbitmq_operator.Builders.Config.Restart.{IniLaws, add_key}

abbrev pub keys_of : Map String → List String
keys_of [] = []
keys_of ((k, v) ∷ m) = k ∷ keys_of m

abbrev pub map_eq : Map String → Map String → Bool
map_eq [] [] = true
map_eq ((k, v) ∷ m) ((j, w) ∷ n) = let rest = map_eq m n in k == j && v == w && rest
map_eq _ _ = false

abbrev print : Map String → String
print [] = ""
print ((k, v) ∷ m) = k <> " = " <> v <> "\n" <> print m

-- The lines of a text, empty ones left out.
parse : ℕ → String → Map String
parse zero s = []
parse (suc fuel) s =
    let n = len s in
    let end = find s "\n" in
    let at = find s " = " in
    let rest = parse fuel (slice s (end + 1) n) in
    if eqb end 0
    then rest
    else if ltb at end
    then (slice s 0 at, slice s (at + 3) end) ∷ rest
    else []

parsed : String → Map String
unfolding parse
parsed text = parse 40 text

read : String → Outcome (Map String)
read text = ok (parsed text)

write_back : Map String → Outcome String
write_back m = if map_eq (parsed (print m)) m then ok (print m) else err (plain "unprintable")

unfoldable pub files : Ini
unfolding read parsed write_back insert delete
files = record {
  File = Map String;
  empty = [];
  load = read;
  append = λ f text. ok (f ++ parsed text);
  new_key = λ f k v. ok (insert k v f);
  key_strings = keys_of;
  delete_key = λ f k. delete k f;
  write = write_back;
}

map_eq_sound : (m n : Map String) → map_eq m n ≡ true → m ≡ n
map_eq_sound [] [] e = refl
map_eq_sound [] (x ∷ n) e = cc
map_eq_sound (x ∷ m) [] e = cc
map_eq_sound ((k, v) ∷ m) ((j, w) ∷ n) e = ground (arith, map_eq_sound m n, eq_iff k j, eq_iff v w)

keys_of-insert : (k v : String) (m : Map String) → keys_of (insert k v m) ≡ add_key k (keys_of m)
unfolding insert plugin_in
keys_of-insert k v [] = refl
keys_of-insert k v ((j, w) ∷ m) = ground (arith, keys_of-insert k v m, eq_iff j k)

delete-insert : (k v : String) (m : Map String) → delete k (insert k v m) ≡ delete k m
unfolding insert delete
delete-insert k v [] = ground (arith, eq_refl k)
delete-insert k v ((j, w) ∷ m) = ground (arith, delete-insert k v m, eq_refl k, eq_iff j k)

delete-insert_other :
    (j k v : String) (m : Map String)
    → (j == k) ≡ false
    → insert k v (delete j m) ≡ delete j (insert k v m)
unfolding insert delete
delete-insert_other j k v [] o = ground (arith, eq_iff j k, eq_iff k j)
delete-insert_other j k v ((i, w) ∷ m) o =
    ground (arith, delete-insert_other j k v m o, eq_iff j k, eq_iff k j, eq_iff i k, eq_iff i j)

delete-delete : (j k : String) (m : Map String) → delete k (delete j m) ≡ delete j (delete k m)
unfolding delete
delete-delete j k [] = refl
delete-delete j k ((i, w) ∷ m) = ground (arith, delete-delete j k m)

write_back-read : (m : Map String) (t : String) → write_back m ≡ ok t → read t ≡ ok m
unfolding write_back read
write_back-read m t e = elim (Bool-cases (map_eq (parsed (print m)) m)) [
  | inl same ↦
      (let printed : print m ≡ t = ok_injective (simp (same) at e) in
        ap ok (sym (ap parsed printed) ∙ map_eq_sound (parsed (print m)) m same))
  | inr other ↦ (let e0 = simp (other) at e in absurd (cc e0))
]

parsed_nothing : parsed "" ≡ []
unfolding parsed
parsed_nothing = refl

nothing_read :
    (m : Map String) (t k : String)
    → plugin_in k (keys_of m) ≡ true
    → read t ≡ ok m
    → (t == "") ≡ false
unfolding plugin_in read
nothing_read m t k has e = elim (Bool-cases (t == "")) [
  | inl empty ↦
      (let nil : m ≡ [] =
          sym (ok_injective e) ∙ ap parsed ((eq_iff t "").0 empty) ∙ parsed_nothing in
        let in_nil = subst (λ x. plugin_in k (keys_of x) ≡ true) nil has in absurd (cc in_nil))
  | inr other ↦ other
]

pub files_laws : IniLaws files
unfolding files
files_laws = record {
  reload = λ f t e. write_back-read f t e;
  has_text = λ f k t has e. nothing_read f t k has (write_back-read f t e);
  key_strings-new = λ f g k v e. sym (ap keys_of (ok_injective e)) ∙ keys_of-insert k v f;
  delete-new = λ f g k v e. sym (ap (delete k) (ok_injective e)) ∙ delete-insert k v f;
  delete_new_other = λ f g j k v other e.
      ap ok (delete-insert_other j k v f other ∙ ap (delete j) (ok_injective e));
  delete_delete = λ f j k. delete-delete j k f;
}
