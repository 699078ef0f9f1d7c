-- ===== src/Generation/Pinned.antt =====
-- The id of a generation pins what its commits hold.
use mathlib.Core.Path.{subst}
use wiki_spike.Base.{
  Option, String, true, ◌≡◌, ap, sym, ◌∙◌, inl, inr, ◌⊎◌, refl, none, some, List, [], ◌∷◌,
  String-discrete, arith, Option-cases,
}
use wiki_spike.Table.{find, find-key}
use wiki_spike.Json.{Json, null, text, array, object, lookup, as_text}
use wiki_spike.Base.Optional.{◌>>=◌}
use wiki_spike.Assembler.{Encoding}
use wiki_spike.Assembler.Pages.{render_pages}
use wiki_spike.Assembler.Snapshot.{parse_snapshot}
use wiki_spike.Generation.{Git, Keyring, citation_path, snapshot_path}
use wiki_spike.Generation.Verify.{
  get, or_object, every, same_pages, has_page, pages_of, verify_manifest,
}
use wiki_spike.Generation.Bound.{Verified, verify_manifest-Verified}

-- The text at `v[outer][inner]`
abbrev pub text_at : String → String → Json → Option String
text_at outer inner v = lookup outer v >>= lookup inner >>= as_text

-- The digests that a descriptor names and that are digests of files
abbrev pub IsDigestName : String → Type 0
IsDigestName name = (name ≡ "citation_index_digest") ⊎ (name ≡ "knowledge_snapshot_digest")

module _ {B : Type 0} (encoding : Encoding B) where
  -- SHA-256 has no collisions, and its digests are read off the canonical bytes: values with the same
  -- bytes that name digests of bytes as an inline artifact name the same. For the normal form that the
  -- canonical bytes are made of is that of each text and key, and leaves lower case letters, digits and
  -- underscores as they are.
  pub record IsCollisionFree : Type 0 where
    pub sha256_inj : (x y : B) → encoding.sha256_hex x ≡ encoding.sha256_hex y → x ≡ y
    pub canonical_digests :
        (v w : Json) (name : String) (x y : B)
        → IsDigestName name
        → encoding.canonical_bytes v ≡ encoding.canonical_bytes w
        → text_at "inline_artifacts" name v ≡ some (encoding.sha256_hex x)
        → text_at "inline_artifacts" name w ≡ some (encoding.sha256_hex y)
        → encoding.sha256_hex x ≡ encoding.sha256_hex y

text_at-get :
    (v : Json) (inline : Option Json) (inner t : String)
    → get "inline_artifacts" v ≡ some inline
    → get inner (or_object inline) ≡ some (some (text t))
    → text_at "inline_artifacts" inner v ≡ some t
text_at-get (object fields) none inner t got held = absurd (ground arith)
text_at-get (object fields) (some (object ms)) inner t got held = ground arith
text_at-get (object fields) (some null) inner t got held = absurd (ground arith)
text_at-get (object fields) (some (text s)) inner t got held = absurd (ground arith)
text_at-get (object fields) (some (array vs)) inner t got held = absurd (ground arith)
text_at-get null inline inner t got held = absurd (ground arith)
text_at-get (text s) inline inner t got held = absurd (ground arith)
text_at-get (array vs) inline inner t got held = absurd (ground arith)

some_inj : {A : Type 0} (a b : A) → some a ≡ some b → a ≡ b
some_inj a b e = cc

none_is_not_some : {A : Type 0} {a : A} → none ≡ some a → ⊥
none_is_not_some e = cc

module _ {R B : Type 0} (same : Discrete B) (encoding : Encoding B) (git : Git R B)
    (keyring : Keyring) where
  every-find :
      (b a : List (String × B)) (path : String) (p : String × B)
      → every (has_page same encoding git keyring b) a ≡ true
      → find String-discrete (λ (p : String × B). p.0) path a ≡ some p
      → has_page same encoding git keyring b p ≡ true
  unfolding find
  every-find b [] path p h e = cc
  every-find b (x ∷ xs) path p h e = ground (arith, every-find b xs path p)

  has_page-found :
      (b : List (String × B)) (path : String) (bytes : B)
      → has_page same encoding git keyring b (path, bytes) ≡ true
      → find String-discrete (λ (p : String × B). p.0) path b ≡ some (path, bytes)
  has_page-found b path bytes h =
      elim (Option-cases (find String-discrete (λ (p : String × B). p.0) path b)) [
        | inl absent ↦ absurd (ground arith)
        | inr (q, found) ↦
            let key = find-key String-discrete (λ (p : String × B). p.0) path b found in
            let held : q.1 ≡ bytes = ground arith in found ∙ ap some (λ i. (key i, held i))
      ]

  there :
      (a b : List (String × B)) (path : String) (p : String × B)
      → every (has_page same encoding git keyring b) a ≡ true
      → find String-discrete (λ (p : String × B). p.0) path a ≡ some p
      → find String-discrete (λ (p : String × B). p.0) path b ≡ some p
  there a b path p h found =
      let key = find-key String-discrete (λ (p : String × B). p.0) path a found in
      subst (λ (k : String). find String-discrete (λ (p : String × B). p.0) k b ≡ some p) key
        (has_page-found b p.0 p.1 (every-find b a path p h found))

  same_pages-find :
      (a b : List (String × B)) (path : String)
      → same_pages same encoding git keyring a b ≡ true
      → find String-discrete (λ (p : String × B). p.0) path a
        ≡ find String-discrete (λ (p : String × B). p.0) path b
  unfolding same_pages
  same_pages-find a b path h =
      elim (Option-cases (find String-discrete (λ (p : String × B). p.0) path a)) [
        | inl absent ↦ elim (Option-cases (find String-discrete (λ (p : String × B). p.0) path b)) [
          | inl gone ↦ absent ∙ sym gone
          | inr (q, found) ↦
              absurd (none_is_not_some (sym absent ∙ there b a path q (ground arith) found))
        ]
        | inr (p, found) ↦ found ∙ sym (there a b path p (ground arith) found)
      ]

  -- What two commits of one generation agree on.
  pub record Agree (c1 c2 : String) (r : R) : Type 0 where
    pub snapshot : git.cat_file c1 snapshot_path r ≡ git.cat_file c2 snapshot_path r
    pub citation : git.cat_file c1 citation_path r ≡ git.cat_file c2 citation_path r
    pub pages :
        (path : String) (p1 p2 : List (String × B))
        → pages_of same encoding git keyring c1 r ≡ some p1
        → pages_of same encoding git keyring c2 r ≡ some p2
        → find String-discrete (λ (p : String × B). p.0) path p1
          ≡ find String-discrete (λ (p : String × B). p.0) path p2

  -- Two verified commits of one id name the same digest.
  same_digest :
      (c1 c2 g name : String) (x y : B) (r : R)
      → IsCollisionFree encoding
      → IsDigestName name
      → (v1 : Verified same encoding git keyring c1 g r)
      → (v2 : Verified same encoding git keyring c2 g r)
      → get name (or_object v1.inline) ≡ some (some (text (encoding.sha256_hex x)))
      → get name (or_object v2.inline) ≡ some (some (text (encoding.sha256_hex y)))
      → x ≡ y
  same_digest c1 c2 g name x y r safe named v1 v2 e1 e2 =
      let bytes = safe.sha256_inj _ _ (v1.named ∙ sym v2.named) in
      safe.sha256_inj x y (
        safe.canonical_digests v1.descriptor v2.descriptor name x y named bytes
          (text_at-get v1.descriptor v1.inline name _ v1.artifacts e1)
          (text_at-get v2.descriptor v2.inline name _ v2.artifacts e2))

  agree :
      (c1 c2 g : String) (r : R)
      → IsCollisionFree encoding
      → Verified same encoding git keyring c1 g r
      → Verified same encoding git keyring c2 g r
      → Agree c1 c2 r
  agree c1 c2 g r safe v1 v2 =
      let x = v1.content in
      let y = v2.content in
      let snapshots =
        same_digest c1 c2 g "knowledge_snapshot_digest" x.snapshot y.snapshot r safe (inr refl) v1
          v2 x.snapshot_digest y.snapshot_digest in
      let citations =
        same_digest c1 c2 g "citation_index_digest" x.citation y.citation r safe (inl refl) v1 v2
          x.citation_digest y.citation_digest in
      let claims : x.claims ≡ y.claims =
        some_inj _ _ (sym x.read_claims ∙ ap (parse_snapshot encoding) snapshots ∙ y.read_claims) in
      record {
        snapshot = x.read_snapshot ∙ ap some snapshots ∙ sym y.read_snapshot;
        citation = x.read_citation ∙ ap some citations ∙ sym y.read_citation;
        pages = λ path p1 p2 e1 e2.
            let own1 : p1 ≡ x.pages = some_inj _ _ (sym e1 ∙ x.read_pages) in
            let own2 : p2 ≡ y.pages = some_inj _ _ (sym e2 ∙ y.read_pages) in
            let at = find String-discrete (λ (p : String × B). p.0) path in
            ap at own1
            ∙ sym (same_pages-find (render_pages encoding x.claims) x.pages path x.rendered)
            ∙ ap (λ claims. at (render_pages encoding claims)) claims
            ∙ same_pages-find (render_pages encoding y.claims) y.pages path y.rendered
            ∙ ap at (sym own2);
      }

  -- The id of a generation pins its files: where SHA-256 has no collisions and values with the same
  -- canonical bytes name the same digests, two commits that are verified under one id hold the same
  -- snapshot, the same citation index and the same pages.
  pub verify_manifest_pins :
      (c1 c2 g : String) (r : R)
      → IsCollisionFree encoding
      → verify_manifest same encoding git keyring c1 g r ≡ some true
      → verify_manifest same encoding git keyring c2 g r ≡ some true
      → Agree c1 c2 r
  verify_manifest_pins c1 c2 g r safe h1 h2 =
      agree c1 c2 g r safe (verify_manifest-Verified same encoding git keyring c1 g r h1)
        (verify_manifest-Verified same encoding git keyring c2 g r h2)
