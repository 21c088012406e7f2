-- ===== src/PromLabel/Serve/Dispatch/Encoding.antt =====
-- A concrete encoding of lists, queries and objects, which reads back what it writes.
use token_auth_proxy.Common.{
  ℕ, zero, suc, ◌≡◌, refl, sym, ap, Option, ap₂, ◌∙◌, true, none, some, List, [], ◌∷◌, ◌++◌, map,
  is_empty, if◌then◌else◌,
}
use token_auth_proxy.Text.{Text, text, join}
use token_auth_proxy.PromLabel.Handler.{Values, rewritten, not_rewritten, query_parse}
use token_auth_proxy.PromLabel.Serve.Response.{Object, JsonCodec}
use token_auth_proxy.PromLabel.Serve.Response.Through.{Faithful, AllCompacted}
use token_auth_proxy.PromLabel.Serve.Dispatch.{Libraries}
use token_auth_proxy.PromLabel.Serve.Dispatch.Confined.{ReadsBack}

-- Each character is written as its successor, and each text is ended by a zero.
abbrev pub write : List Text → Text
write [] = []
write (t ∷ ts) = map suc t ++ (zero ∷ write ts)

abbrev pub push : ℕ → List Text → List Text
push c [] = (c ∷ []) ∷ []
push c (t ∷ ts) = (c ∷ t) ∷ ts

abbrev pub read : Text → List Text
read [] = []
read (zero ∷ t) = [] ∷ read t
read (suc c ∷ t) = push c (read t)

read-one : (t rest : Text) → read (map suc t ++ (zero ∷ rest)) ≡ t ∷ read rest
read-one [] rest = refl
read-one (c ∷ t) rest = ap (push c) (read-one t rest)

read-write : (ts : List Text) → read (write ts) ≡ ts
read-write [] = refl
read-write (t ∷ ts) = read-one t (write ts) ∙ ap (λ x. t ∷ x) (read-write ts)

-- An entry of a map is the list of its name and its values.
abbrev pub entry_of : List Text → Text × List Text
entry_of [] = ([], [])
entry_of (name ∷ vs) = (name, vs)

abbrev pub write_values : Values → Text
write_values v = write (map (λ (name, vs). write (name ∷ vs)) v)

abbrev pub read_values : Text → Values
read_values t = map (λ x. entry_of (read x)) (read t)

values_back :
    (v : Values) → map (λ x. entry_of (read x)) (map (λ (name, vs). write (name ∷ vs)) v) ≡ v
values_back [] = refl
values_back ((name, vs) ∷ v) = ap₂ ◌∷◌ (ap entry_of (read-write (name ∷ vs))) (values_back v)

read_values-write : (v : Values) → read_values (write_values v) ≡ v
read_values-write v =
    ap (map (λ x. entry_of (read x))) (read-write (map (λ (name, vs). write (name ∷ vs)) v))
    ∙ values_back v

abbrev pub field_of : List Text → Text × Text
field_of (name ∷ value ∷ vs) = (name, value)
field_of _ = ([], [])

-- A list in JSON starts with a mark, so that no value is an empty text.
abbrev pub write_list : List Text → Text
write_list l = 1 ∷ write l

abbrev pub read_list : Text → Option (List Text)
read_list [] = none
read_list (c ∷ t) = some (read t)

abbrev pub fields_of : List Text → Object
fields_of ts = map (λ x. field_of (read x)) ts

abbrev pub write_object : Object → Text
write_object o = write_list (map (λ (name, value). write (name ∷ value ∷ [])) o)

abbrev pub mapped : {A B : Type 0} → (A → B) → Option A → Option B
mapped f none = none
mapped f (some a) = some (f a)

abbrev pub read_object : Text → Option Object
read_object t = mapped fields_of (read_list t)

abbrev pub or_empty : Option Object → Object
or_empty none = []
or_empty (some o) = o

object_back :
    (o : Object)
    → map (λ x. field_of (read x)) (map (λ (name, value). write (name ∷ value ∷ [])) o) ≡ o
object_back [] = refl
object_back ((name, value) ∷ o) =
    ap₂ ◌∷◌ (ap field_of (read-write (name ∷ value ∷ []))) (object_back o)

read_object-write : (o : Object) → read_object (write_object o) ≡ some o
read_object-write o =
    ap (λ ts. some (fields_of ts)) (read-write (map (λ (name, value). write (name ∷ value ∷ [])) o))
    ∙ ap some (object_back o)

abbrev pub write_objects : List Object → Text
write_objects os = write_list (map write_object os)

abbrev pub objects_of : List Text → List Object
objects_of ts = map (λ t. or_empty (read_object t)) ts

abbrev pub read_objects : Text → Option (List Object)
read_objects t = mapped objects_of (read_list t)

objects_back : (os : List Object) → objects_of (map write_object os) ≡ os
objects_back [] = refl
objects_back (o ∷ os) = ap₂ ◌∷◌ (ap or_empty (read_object-write o)) (objects_back os)

read_objects-write : (os : List Object) → read_objects (write_objects os) ≡ some os
read_objects-write os =
    ap (λ ts. some (objects_of ts)) (read-write (map write_object os)) ∙ ap some (objects_back os)

abbrev pub codec : JsonCodec
codec = record {
  gunzip = λ t. none;
  show_length = λ n. n ∷ [];
  decode_text = λ t. some t;
  decode_object = read_object;
  decode_list = read_list;
  decode_objects = read_objects;
  decode_labels = read_object;
  decode_silence = λ t. none;
  encode_object = λ o. some (write_object o);
  encode_list = λ l. some (write_list l);
  encode_objects = λ os. some (write_objects os);
  encode_silence = λ s. some s.id;
}

-- Values are written as they are.
abbrev same_text : Text → Text
same_text t = t

map_same : (l : List Text) → map same_text l ≡ l
map_same [] = refl
map_same (t ∷ l) = ap (λ r. t ∷ r) (map_same l)

AllCompacted-refl : (os : List Object) → AllCompacted same_text os os
AllCompacted-refl [] = tt
AllCompacted-refl (o ∷ os) = (λ name n. refl, AllCompacted-refl os)

pub codec-Faithful : Faithful codec
codec-Faithful = record {
  compact = same_text;
  compact_twice = λ t. refl;
  compact_some = λ t e. e;
  no_list = refl;
  no_object = refl;
  no_objects = refl;
  list_back = λ l t e.
      let k : write_list l ≡ t = cc in
      ap read_list (sym k) ∙ ap some (read-write l ∙ sym (map_same l));
  object_back = λ o t e.
      let k : write_object o ≡ t = cc in
      (o, ap read_object (sym k) ∙ read_object-write o, λ name n. refl);
  objects_back = λ os t e.
      let k : write_objects os ≡ t = cc in
      (os, ap read_objects (sym k) ∙ read_objects-write os, AllCompacted-refl os);
  list_compact = λ t l e. e ∙ ap some (sym (map_same l));
  object_compact = λ t o e. (o, e, λ name n. refl);
  objects_compact = λ t os e. (os, e, AllCompacted-refl os);
  labels_same = λ t. refl;
  silence_same = λ t. refl;
}

abbrev pub libs : Libraries Text
libs = record {
  codec = codec;
  parse_query = λ t. some (read_values t);
  encode = write_values;
  parse_media_type = λ t. some t;
  quote_meta = λ t. t;
  equal_matcher = λ name value. some (name ++ (text "=" ++ value));
  regexp_matcher = λ name value. some (name ++ (text "=~" ++ value));
  string_of = λ m. m;
  enforce_all = λ ms q.
      if is_empty q
      then not_rewritten query_parse
      else rewritten (q ++ (text "{" ++ (join (text ",") ms ++ text "}")));
  is_silence_id = λ id. true;
  fetch = λ prefix id hs. none;
}

pub libs-ReadsBack : ReadsBack libs
libs-ReadsBack v = (v, ap some (read_values-write v), λ name. refl)
