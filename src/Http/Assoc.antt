-- ===== src/Http/Assoc.antt =====
-- A header map of pairs in the order of insertion, which meets the laws of `HeaderOps`.
use reduction.Prelude.{◌≡◌, refl, ite, List, [], ◌∷◌, ◌++◌, arith, Text, text_dec}
use reduction.Http.{HeaderOps}

abbrev get_pairs : Text → List (Text × Text) → List Text
get_pairs j [] = []
get_pairs j ((k, v) ∷ m) = ite (text_dec k j) (v ∷ get_pairs j m) (get_pairs j m)

abbrev remove_pairs : Text → List (Text × Text) → List (Text × Text)
remove_pairs k [] = []
remove_pairs k ((j, v) ∷ m) = ite (text_dec j k) (remove_pairs k m) ((j, v) ∷ remove_pairs k m)

pub get_pairs-remove :
    (j k : Text) (m : List (Text × Text))
    → get_pairs j (remove_pairs k m) ≡ ite (text_dec k j) [] (get_pairs j m)
get_pairs-remove j k [] = ground arith
get_pairs-remove j k ((i, v) ∷ m) = ground (arith, get_pairs-remove j k m)

pub get_pairs-insert :
    (j k v : Text) (m : List (Text × Text))
    → get_pairs j ((k, v) ∷ remove_pairs k m) ≡ ite (text_dec k j) (v ∷ []) (get_pairs j m)
get_pairs-insert j k v m = ground (arith, get_pairs-remove j k m)

pub get_pairs-append :
    (j k v : Text) (m : List (Text × Text))
    → get_pairs j (m ++ ((k, v) ∷ []))
      ≡ ite (text_dec k j) (get_pairs j m ++ (v ∷ [])) (get_pairs j m)
get_pairs-append j k v [] = ground arith
get_pairs-append j k v ((i, w) ∷ m) = ground (arith, get_pairs-append j k v m)

abbrev pub assoc_headers : HeaderOps
assoc_headers = record {
  HeaderMap = List (Text × Text);
  empty = [];
  get_all = get_pairs;
  insert = λ k v m. (k, v) ∷ remove_pairs k m;
  append = λ k v m. m ++ ((k, v) ∷ []);
  remove = remove_pairs;
  get_all-empty = λ j. refl;
  get_all-insert = get_pairs-insert;
  get_all-append = get_pairs-append;
  get_all-remove = get_pairs-remove;
}
