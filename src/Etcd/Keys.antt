-- ===== src/Etcd/Keys.antt =====
-- The keys under which the etcd adapter stores Instances and their files.
use hambone.Base.{String, ◌<>◌, ◌≡◌, ◌≢◌, ◌∙◌, sym, ap, starts_with, true}
use hambone.Etcd.Adapter.{
  instance_key_prefix, get_instance_key, get_file_key, strip_instance_key_prefix,
}
use text.Mathlib.TextPositions.{slice-append_right, len-append, starts_with-append}
use text.Mathlib.TextLemmas.{
  append_cancel_left, append_assoc, append-nil, append-eq-nil_iff, cons≢nil,
}

-- The name of an Instance is read back from the key that is made of it.
pub strip-get_instance_key :
    (name : String) → strip_instance_key_prefix (get_instance_key name) ≡ name
unfolding strip_instance_key_prefix get_instance_key
strip-get_instance_key name = rw len-append (slice-append_right instance_key_prefix name)

pub get_instance_key-injective : (a b : String) → get_instance_key a ≡ get_instance_key b → a ≡ b
unfolding get_instance_key
get_instance_key-injective a b h = append_cancel_left instance_key_prefix a b h

-- The key of a file of an Instance is the key of an Instance named after the path of the file.
pub file_key-eq-instance_key :
    (name file : String)
    → get_file_key (get_instance_key name) file ≡ get_instance_key (name <> ("/" <> file))
unfolding get_file_key get_instance_key
file_key-eq-instance_key name file = append_assoc instance_key_prefix name ("/" <> file)

-- Every key that the adapter stores begins with the prefix of the keys of Instances.
pub instance_key-starts_with :
    (name : String) → starts_with (get_instance_key name) instance_key_prefix ≡ true
unfolding get_instance_key
instance_key-starts_with name = starts_with-append instance_key_prefix name

pub longer_key-starts_with :
    (name more : String)
    → starts_with (get_instance_key (name <> more)) (get_instance_key name) ≡ true
unfolding get_instance_key
longer_key-starts_with name more =
    rw (← append_assoc) (starts_with-append (instance_key_prefix <> name) more)

pub key-starts_with : (key : String) → starts_with key key ≡ true
key-starts_with key = ap (λ k. starts_with k key) (sym (append-nil key)) ∙ starts_with-append key ""

-- The key of a file is not the key that it extends.
pub file_key-ne-key : (key file : String) → key ≢ get_file_key key file
unfolding get_file_key
file_key-ne-key key file h =
    cons≢nil
      (append-eq-nil_iff.0 (sym (append_cancel_left key "" ("/" <> file) (append-nil key ∙ h)))).0
