-- ===== src/Sources/Ingest.antt =====
-- `IngestService` of ingest.py. Its extractor is an argument, as in the code; it may raise.
pub mod Complete
use Prim.Native.Char.{code}
use Prim.Native.String.{[], ◌∷◌}
use wiki_spike.Base.{
  String, Bool, true, false, not, ◌||◌, ◌&&◌, ◌==◌, Option, none, some, List, String-discrete,
  if◌then◌else◌,
}
use wiki_spike.Exec.{
  Error, Exec, Result, ok, err, pure, raise, raise_if, gets, modify, ◌>>=◌, ◌>>◌, unknown_source,
  not_compilable, illegal_transition, not_unicode,
}
use wiki_spike.Table.{find, put}
use wiki_spike.Models.{CompiledClaim}
use wiki_spike.Models.Manifest.{
  SourceManifest, Status, staged, validated, same_status, received_manifest, transition,
}
use wiki_spike.Sources.Store.{Cas, exists, get, put_data}

-- hashlib, the codecs of Python and unicodedata.
pub record Texts : Type 0 where
  pub sha256_hex : String → String
  pub decode : String → Option String
  pub encode : String → String
  pub nfc : String → String

pub record ExtractResult : Type 0 where
  pub claims : List CompiledClaim
  pub revokes : List String

pub record ReceiveResult : Type 0 where
  pub source_id : String
  pub content_hash : String
  pub representation_hash : String
  pub status : Status
  pub idempotent : Bool

pub record CompileResult : Type 0 where
  pub source_id : String
  pub claims : List CompiledClaim
  pub revokes : List String
  pub status : Status

pub record Representation : Type 0 where
  pub source_id : String
  pub representation_hash : String

pub record Sources : Type 0 where
  pub cas : Cas
  pub manifests : List SourceManifest
  pub representations : List Representation

abbrev pub manifest_key : SourceManifest → String
manifest_key m = m.source_id

abbrev pub representation_key : Representation → String
representation_key r = r.source_id

-- `manifest` of the service; `none` is its KeyError
abbrev pub manifest : String → Sources → Option SourceManifest
manifest id s = find String-discrete manifest_key id s.manifests

abbrev pub write_manifest : SourceManifest → Sources → Sources
write_manifest m s = record s { manifests = put String-discrete manifest_key m s.manifests }

abbrev pub write_representation : String → String → Sources → Sources
write_representation id hash s = record s {
  representations =
      put String-discrete representation_key (record { source_id = id; representation_hash = hash })
        s.representations;
}

-- `text.replace("\r\n", "\n")`
unfoldable pub replace_crlf : String → String
replace_crlf [] = []
replace_crlf (c ∷ []) = c ∷ []
replace_crlf (c ∷ d ∷ s) =
    let rest = replace_crlf s in
    let next = replace_crlf (d ∷ s) in
    if code c == 13 && code d == 10 then "\n" ∷ rest else c ∷ next

-- `text.replace("\r", "\n")`
unfoldable pub replace_cr : String → String
replace_cr [] = []
replace_cr (c ∷ s) = if code c == 13 then "\n" ∷ replace_cr s else c ∷ replace_cr s

module _ {A : Type 0} where
  abbrev pub on_cas : Exec Cas A → Exec Sources A
  on_cas m s = let (r, cas) = m s.cas in (r, record s { cas = cas })

  abbrev pub or_raise : Error → Option A → Exec Sources A
  or_raise e none = raise e
  or_raise e (some a) = pure a

module _ (texts : Texts) where
  -- `_representation`, the bytes; their hash is the other part of the pair
  unfoldable pub representation : String → String
  representation text = texts.encode (replace_cr (replace_crlf (texts.nfc text)))

  -- `get` of the manifest, or a new one that is staged and written.
  abbrev staged_manifest : String → Option SourceManifest → Exec Sources SourceManifest
  staged_manifest id (some m) = pure m
  staged_manifest id none = do
    m ← or_raise illegal_transition (transition (received_manifest id id) staged)
    modify (write_manifest m)
    pure m

  unfoldable pub manifest_of : String → Exec Sources SourceManifest
  manifest_of id = do found ← gets (manifest id); staged_manifest id found

  module _ (on_disk : String → String) (others : Cas → Cas) where
    unfoldable pub receive : String → Exec Sources ReceiveResult
    unfolding representation manifest_of
    receive raw = do
      already ← gets (λ s. exists (texts.sha256_hex raw) s.cas)
      id ← on_cas (put_data texts.sha256_hex on_disk others raw)
      text ← or_raise not_unicode (texts.decode raw)
      on_cas (put_data texts.sha256_hex on_disk others (representation text))
      modify (write_representation id (texts.sha256_hex (representation text)))
      m ← manifest_of id
      pure (record {
        source_id = id;
        content_hash = id;
        representation_hash = texts.sha256_hex (representation text);
        status = m.status;
        idempotent = already;
      })

  abbrev is_compilable : Status → Bool
  is_compilable s = same_status s staged || same_status s validated

  abbrev validate : SourceManifest → Exec Sources Status
  validate m = if not (same_status m.status staged) then pure m.status else do
    m' ← or_raise illegal_transition (transition m validated)
    modify (write_manifest m')
    pure m'.status

  module _ (extract : String → String → String → Result ExtractResult) where
    -- The extraction from the canonical text of the stored bytes.
    unfoldable pub extract_source : String → Exec Sources ExtractResult
    unfolding representation
    extract_source id = do
      raw ← on_cas (get texts.sha256_hex id)
      raw_text ← or_raise not_unicode (texts.decode raw)
      text ← or_raise not_unicode (texts.decode (representation raw_text))
      (λ s. (extract text id (texts.sha256_hex (representation raw_text)), s))

    unfoldable pub compile : String → Exec Sources CompileResult
    unfolding manifest_of extract_source
    compile id = do
      there ← gets (λ s. exists id s.cas)
      raise_if (not there) unknown_source
      m ← manifest_of id
      raise_if (not (is_compilable m.status)) not_compilable
      result ← extract_source id
      status ← validate m
      pure (record {
        source_id = id;
        claims = result.claims;
        revokes = result.revokes;
        status = status;
      })
