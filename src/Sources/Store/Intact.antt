-- ===== src/Sources/Store/Intact.antt =====
-- What is stored stays what its name says.
use wiki_spike.Base.{
  String, ◌≡◌, some, List, [], ◌∷◌, arith, inl, inr, Option-cases, String-discrete, ◌=s◌, not,
  select, map,
}
use wiki_spike.Exec.{ok}
use wiki_spike.Table.{find, find-insert_or_ignore, insert_or_ignore}
use wiki_spike.Sources.Store.{Cas, Object, object_at, object_key, get, put_data, scan}

-- What other writers may do: files that are there stay as they are.
abbrev pub Keeps : Cas → Cas → Type 0
Keeps s s' = (d : String) (o : Object) → object_at d s ≡ some o → object_at d s' ≡ some o

module _ (sha256_hex : String → String) (on_disk : String → String) where
  -- A file that is there stays as it is, whatever is put.
  pub put_data-Keeps :
      (others : Cas → Cas)
      → ((s : Cas) → Keeps s (others s))
      → (bytes : String) (s : Cas) → Keeps s (put_data sha256_hex on_disk others bytes s).1
  unfolding put_data
  put_data-Keeps others kept bytes s d o h =
      let digest = sha256_hex bytes in
      let there =
        find-insert_or_ignore String-discrete object_key d
          (record { name = digest; content = on_disk bytes }) (others s).objects in
      elim (Option-cases (object_at digest s)) [
        | inl new ↦ ground (arith, kept s d o h, there)
        | inr (x, found) ↦ ground arith
      ]

module _ (sha256_hex : String → String) where
  abbrev bad : List Object → List String
  bad os = map object_key (select (λ (o : Object). not (sha256_hex o.content =s o.name)) os)

  bad-find :
      (d : String) (o : Object) (os : List Object)
      → bad os ≡ []
      → find String-discrete object_key d os ≡ some o
      → sha256_hex o.content ≡ d
  unfolding find
  bad-find d o [] fine h = cc
  bad-find d o (x ∷ xs) fine h = ground (arith, bad-find d o xs)

  bad-insert :
      (o : Object) (os : List Object)
      → sha256_hex o.content ≡ o.name
      → bad os ≡ []
      → bad (insert_or_ignore String-discrete object_key o os) ≡ []
  unfolding insert_or_ignore
  bad-insert o [] own fine = ground arith
  bad-insert o (x ∷ xs) own fine = ground (arith, bad-insert o xs own)

  -- A scan that finds nothing wrong finds nothing wrong after a write, whether it returns or raises, where
  -- the other writers bring in nothing wrong.
  pub put_data-scan :
      (on_disk : String → String) (others : Cas → Cas)
      → ((s : Cas) → scan sha256_hex s ≡ [] → scan sha256_hex (others s) ≡ [])
      → (bytes : String) (s : Cas) → scan sha256_hex s ≡ []
      → scan sha256_hex (put_data sha256_hex on_disk others bytes s).1 ≡ []
  unfolding scan put_data
  put_data-scan on_disk others sound bytes s fine =
      let digest = sha256_hex bytes in
      let linked =
        bad-insert (record { name = digest; content = on_disk bytes }) (others s).objects in
      elim (Option-cases (object_at digest s)) [
        | inl new ↦ ground (arith, sound s fine, linked)
        | inr (x, found) ↦ ground arith
      ]

  pub scan-found :
      (d : String) (o : Object) (s : Cas)
      → scan sha256_hex s ≡ []
      → object_at d s ≡ some o
      → sha256_hex o.content ≡ d
  unfolding scan
  scan-found d o s fine there = bad-find d o s.objects (ground arith) there

  -- What is put can be read from then on, with the content that its name says: after any writes of others
  -- that keep the files that are there, and where a file that they put under the same name during the
  -- write, if there is one, has the content that its name says. Whatever else is wrong in the store.
  pub put_data-get :
      (on_disk : String → String) (others : Cas → Cas)
      → (bytes d : String) (s : Cas)
      → ((o : Object)
          → object_at (sha256_hex bytes) (others s) ≡ some o
          → sha256_hex o.content ≡ sha256_hex bytes)
      → (put_data sha256_hex on_disk others bytes s).0 ≡ ok d
      → (later : Cas) → Keeps (put_data sha256_hex on_disk others bytes s).1 later
      → (d ≡ sha256_hex bytes)
        × (content : String) × ((get sha256_hex d later).0 ≡ ok content)
        × (sha256_hex content ≡ sha256_hex bytes)
  unfolding put_data get
  put_data-get on_disk others bytes d s fine h later kept =
      let digest = sha256_hex bytes in
      let file : Object = record { name = digest; content = on_disk bytes } in
      let there = find-insert_or_ignore String-discrete object_key digest file (others s).objects in
      elim (Option-cases (object_at digest s)) [
        | inr (x, found) ↦ (ground arith, x.content, ground (arith, kept digest x), ground arith)
        | inl new ↦ elim (Option-cases (object_at digest (others s))) [
          | inl free ↦
              (ground arith, on_disk bytes, ground (arith, kept digest file, there), ground arith)
          | inr (x, raced) ↦
              let own = fine x raced in
              (ground arith, x.content, ground (arith, kept digest x, there), own)
        ]
      ]
