-- ===== src/Generation/Repository.antt =====
-- gitrepo.py: the methods of GitRepo that a build uses. The commands of git are a record of operations
-- on a repository.
pub mod Refs
use wiki_spike.Base.{String, Bool, Option, none, some, List, [], ◌∷◌, if◌then◌else◌}
use wiki_spike.Base.Texts.{is_empty}
use wiki_spike.Base.TextOrder.{leb_text}
use wiki_spike.Base.Sorting.{sort}
use wiki_spike.Exec.{Exec, gets, pure, ◌>>=◌, ◌>>◌}
use wiki_spike.Generation.{Git}

-- The commands; the texts that they print are stripped.
pub record Commands (R B : Type 0) : Type 0 where
  pub hash_object : B → Exec R String  -- git hash-object -w --stdin
  pub update_index : String → String → String → Exec R Unit  -- the index, the path and the object
  pub write_tree : String → Exec R String  -- git write-tree, of the index
  pub commit_tree : String → String → Option String → Exec R String  -- git commit-tree, -p parent
  pub rev_parse : String → R → String  -- git rev-parse --verify --quiet: nothing where it fails
  pub update_ref : String → String → String → Exec R Unit  -- git update-ref <ref> <new> <old>
  pub cat_file : String → String → R → Option B  -- git cat-file -p <commit>:<path>
  pub ls_tree : String → R → List String  -- git ls-tree -r --name-only
  pub is_sha256 : R → Bool  -- git rev-parse --show-object-format
  pub index_name : R → String  -- a file name by os.urandom
  pub unlink : String → R → R

module _ {R B : Type 0} (commands : Commands R B) where
  -- The loop over `sorted(files.items())`
  unfoldable pub add_files : String → List (String × B) → Exec R Unit
  add_files index [] = pure tt
  add_files index ((path, bytes) ∷ files) = do
    oid ← commands.hash_object bytes
    commands.update_index index path oid
    add_files index files

  -- `finally: idx.unlink()`
  abbrev with_index : {A : Type 0} → (String → Exec R A) → Exec R A
  with_index body r =
      let index = commands.index_name r in
      let (result, after) = body index r in (result, commands.unlink index after)

  unfoldable pub write_tree_from_files : List (String × B) → Exec R String
  unfolding add_files sort
  write_tree_from_files files = with_index (λ index.
      let by_path = sort (λ (f : String × B) (g : String × B). leb_text f.0 g.0) files in
      add_files index by_path >> commands.write_tree index)

  -- `if parent`
  abbrev parent_argument : Option String → Option String
  parent_argument none = none
  parent_argument (some p) = if is_empty p then none else some p

  unfoldable pub commit_tree : String → String → Option String → Exec R String
  commit_tree tree message parent = commands.commit_tree tree message (parent_argument parent)

  -- `out or None`
  unfoldable pub read_ref : String → R → Option String
  read_ref ref r = let out = commands.rev_parse ref r in if is_empty out then none else some out

  abbrev pub zeros : Bool → String
  zeros sha256 =
      if sha256
      then "0000000000000000000000000000000000000000000000000000000000000000"
      else "0000000000000000000000000000000000000000"

  unfoldable pub create_ref_only : String → String → Exec R Unit
  create_ref_only ref oid = do
    sha256 ← gets commands.is_sha256
    commands.update_ref ref oid (zeros sha256)

  unfoldable pub git_repo : Git R B
  unfolding write_tree_from_files commit_tree read_ref create_ref_only
  git_repo = record {
    write_tree_from_files = write_tree_from_files;
    commit_tree = commit_tree;
    read_ref = read_ref;
    create_ref_only = create_ref_only;
    cat_file = commands.cat_file;
    ls_tree = commands.ls_tree;
  }
