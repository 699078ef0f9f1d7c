-- ===== src/Sources/Store.antt =====
-- `ContentAddressedStore` of cas.py: files named by the hash of their content, written once.
pub mod Intact
use wiki_spike.Base.{
  String, Bool, true, false, not, Option, none, some, List, [], ◌∷◌, map, select, ◌=s◌,
  String-discrete, if◌then◌else◌,
}
use wiki_spike.Exec.{
  Exec, pure, raise, raise_if, gets, modify, ◌>>=◌, ◌>>◌, integrity_violation,
  verify_after_write_failed, object_not_found,
}
use wiki_spike.Table.{find, put, insert_or_ignore}

-- A file of the directory `objects`; the temporary files, which `scan` passes over, are not among them.
pub record Object : Type 0 where
  pub name : String
  pub content : String

pub record Tombstone : Type 0 where
  pub digest : String
  pub reason : String

pub record Cas : Type 0 where
  pub objects : List Object
  pub tombstones : List Tombstone

abbrev pub object_key : Object → String
object_key o = o.name

abbrev pub tombstone_key : Tombstone → String
tombstone_key t = t.digest

abbrev pub is_file {ℓ} : {A : Type ℓ} → Option A → Bool
is_file none = false
is_file (some a) = true

abbrev pub object_at : String → Cas → Option Object
object_at digest s = find String-discrete object_key digest s.objects

abbrev pub exists : String → Cas → Bool
exists digest s = is_file (object_at digest s)

-- `os.link`, which does not touch a file that is there
abbrev pub link : String → String → Cas → Cas
link digest content s = record s {
  objects =
      insert_or_ignore String-discrete object_key (record { name = digest; content = content })
        s.objects;
}

unfoldable pub tombstone : String → String → Cas → Cas
tombstone digest reason s = record s {
  tombstones =
      put String-discrete tombstone_key (record { digest = digest; reason = reason }) s.tombstones;
}

unfoldable pub is_tombstoned : String → Cas → Bool
is_tombstoned digest s = is_file (find String-discrete tombstone_key digest s.tombstones)

module _ (sha256_hex : String → String) where
  -- The object of that name, with its content checked.
  abbrev checked : String → Option Object → Exec Cas String
  checked digest none = raise object_not_found
  checked digest (some o) = do
    raise_if (not (sha256_hex o.content =s digest)) integrity_violation
    pure o.content

  unfoldable pub get : String → Exec Cas String
  get digest = do o ← gets (object_at digest); checked digest o

  unfoldable pub scan : Cas → List String
  scan s = map object_key (select (λ (o : Object). not (sha256_hex o.content =s o.name)) s.objects)

  -- `on_disk bytes` is what is read back after `bytes` is written to a temporary file, and `others` is what
  -- other writers do between the look at the path and the link.
  module _ (on_disk : String → String) (others : Cas → Cas) where
    abbrev write : String → String → Exec Cas String
    write bytes digest = do
      raise_if (not (sha256_hex (on_disk bytes) =s digest)) verify_after_write_failed
      modify (λ s. link digest (on_disk bytes) (others s))
      pure digest

    abbrev store : String → String → Option Object → Exec Cas String
    store bytes digest none = write bytes digest
    store bytes digest (some o) = do
      raise_if (not (sha256_hex o.content =s digest)) integrity_violation
      pure digest

    unfoldable pub put_data : String → Exec Cas String
    put_data bytes = do o ← gets (object_at (sha256_hex bytes)); store bytes (sha256_hex bytes) o
