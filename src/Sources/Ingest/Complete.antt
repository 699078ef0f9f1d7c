-- ===== src/Sources/Ingest/Complete.antt =====
-- A source that is received can be compiled.
use wiki_spike.Base.{
  String, ◌≡◌, ◌⊎◌, refl, sym, ap, ◌∙◌, Option, none, some, [], arith, inl, inr, Option-cases,
  String-discrete,
}
use wiki_spike.Exec.{Result, Result-cases, ok}
use wiki_spike.Table.{find-put}
use wiki_spike.Models.Manifest.{
  SourceManifest, staged, validated, received_manifest, legal_transitions, transition,
}
use wiki_spike.Sources.Store.{Cas, object_at, get, put_data, scan}
use wiki_spike.Sources.Store.Intact.{Keeps, put_data-Keeps, put_data-get, scan-found}
use wiki_spike.Sources.Ingest.{
  Texts, Sources, ReceiveResult, ExtractResult, CompileResult, manifest, manifest_key, manifest_of,
  write_representation, replace_cr, replace_crlf, representation, receive, compile,
}

-- Other writers keep the files that are there and bring in none that is wrong.
pub record IsSafe (sha256_hex : String → String) (others : Cas → Cas) : Type 0 where
  pub keeps : (s : Cas) → Keeps s (others s)
  pub sound : (s : Cas) → scan sha256_hex s ≡ [] → scan sha256_hex (others s) ≡ []

-- A manifest that can be compiled, if there is one.
abbrev pub IsOpen : Option SourceManifest → Type 0
IsOpen found =
    (found ≡ none)
    ⊎ ((m : SourceManifest) × (found ≡ some m) × ((m.status ≡ staged) ⊎ (m.status ≡ validated)))

-- What a compilation that returns has found.
abbrev pub compiled : String → ExtractResult → CompileResult
compiled id result = record {
  source_id = id;
  claims = result.claims;
  revokes = result.revokes;
  status = validated;
}

some_inj : {A : Type 0} {a b : A} → some a ≡ some b → a ≡ b
some_inj e = cc

module _ (texts : Texts) where
  -- The text that a source is extracted from
  abbrev pub canonical_text : String → String
  canonical_text text = replace_cr (replace_crlf (texts.nfc text))

  manifest_of-IsOpen :
      (id : String) (s : Sources)
      → IsOpen (manifest id s)
      → (m : SourceManifest) × ((manifest_of texts id s).0 ≡ ok m)
        × (manifest id (manifest_of texts id s).1 ≡ some m)
        × ((m.status ≡ staged) ⊎ (m.status ≡ validated))
        × ((manifest_of texts id s).1.cas ≡ s.cas)
  unfolding manifest_of transition legal_transitions received_manifest
  manifest_of-IsOpen id s (inl new) =
      let m : SourceManifest = record (received_manifest id id) { status = staged } in
      let there = find-put String-discrete manifest_key id m s.manifests in
      (m, ground arith, ground (arith, there), inl refl, ground arith)
  manifest_of-IsOpen id s (inr (m, found, state)) =
      (m, ground arith, ground arith, state, ground arith)

  module _ (on_disk : String → String) (others : Cas → Cas) where
    -- What a reception that returns has done.
    record IsReceived (raw : String) (s : Sources) (r : ReceiveResult) : Type 0 where
      text : String
      decoded : texts.decode raw ≡ some text
      put_raw : (put_data texts.sha256_hex on_disk others raw s.cas).0 ≡ ok r.source_id
      stored :
          (receive texts on_disk others raw s).1.cas
          ≡ (put_data texts.sha256_hex on_disk others
              (representation texts text)
              (put_data texts.sha256_hex on_disk others raw s.cas).1).1
      open_manifest : IsOpen (manifest r.source_id (receive texts on_disk others raw s).1)

    receive-IsReceived :
        (raw : String) (s : Sources) (r : ReceiveResult)
        → IsOpen (manifest r.source_id s)
        → (receive texts on_disk others raw s).0 ≡ ok r
        → IsReceived raw s r
    unfolding receive
    receive-IsReceived raw s r before h =
        let first = put_data texts.sha256_hex on_disk others raw s.cas in
        elim (Result-cases first.0) [
          | inr (e, failed) ↦ absurd (ground arith)
          | inl (id, done) ↦ elim (Option-cases (texts.decode raw)) [
            | inl undecodable ↦ absurd (ground arith)
            | inr (text, decoded) ↦
                let second =
                  put_data texts.sha256_hex on_disk others (representation texts text) first.1 in
                elim (Result-cases second.0) [
                  | inr (e, failed) ↦ absurd (ground arith)
                  | inl (d, done2) ↦
                      let s2 =
                        write_representation id (texts.sha256_hex (representation texts text))
                          (record s { cas = second.1 }) in
                      elim (Result-cases (manifest_of texts id s2).0) [
                        | inr (e, failed) ↦ absurd (ground arith)
                        | inl (m, done3) ↦
                            let same : r.source_id ≡ id = ground arith in
                            let opened : IsOpen (manifest id s2) = rw (sym same) before in
                            let (m', made, there, state, kept) = manifest_of-IsOpen id s2 opened in
                            record {
                              text = text;
                              decoded = decoded;
                              put_raw = ground arith;
                              stored = ground arith;
                              open_manifest = inr (m', ground arith, state);
                            }
                      ]
                ]
          ]
        ]

    compile_completes :
        (extract : String → String → String → Result ExtractResult)
        → (id raw raw_text text : String) (s : Sources) (result : ExtractResult)
        → IsOpen (manifest id s)
        → (get texts.sha256_hex id s.cas).0 ≡ ok raw
        → texts.decode raw ≡ some raw_text
        → texts.decode (representation texts raw_text) ≡ some text
        → extract text id (texts.sha256_hex (representation texts raw_text)) ≡ ok result
        → (compile texts extract id s).0 ≡ ok (compiled id result)
    unfolding compile get transition legal_transitions
    compile_completes extract id raw raw_text text s result opened read decoded again extracted =
        let (m, made, there, state, kept) = manifest_of-IsOpen id s opened in
        elim (Option-cases (object_at id s.cas)) [
          | inl absent ↦ absurd (ground arith)
          | inr (o, present) ↦ elim state [ inl fresh ↦ ground arith | inr done ↦ ground arith ]
        ]

    -- A source whose reception returned can be compiled, and is then validated, with the claims that the
    -- extractor returns for the canonical text of the source, its id and the hash of the canonical bytes:
    -- where a text is read back from its bytes, no other bytes have the hash of the source, the store had
    -- nothing wrong, other writers are safe, and the manifest of the source, if there is one, is staged or
    -- validated.
    pub receive_compiles :
        IsSafe texts.sha256_hex others
        → ((text : String) → texts.decode (texts.encode text) ≡ some text)
        → (raw text : String) → texts.decode raw ≡ some text
        → ((b : String) → texts.sha256_hex b ≡ texts.sha256_hex raw → b ≡ raw)
        → (s : Sources) (r : ReceiveResult) → scan texts.sha256_hex s.cas ≡ []
        → IsOpen (manifest r.source_id s)
        → (receive texts on_disk others raw s).0 ≡ ok r
        → (extract : String → String → String → Result ExtractResult) (result : ExtractResult)
        → extract
            (canonical_text text)
            r.source_id
            (texts.sha256_hex (texts.encode (canonical_text text)))
          ≡ ok result
        → (compile texts extract r.source_id (receive texts on_disk others raw s).1).0
          ≡ ok (compiled r.source_id result)
    unfolding representation
    receive_compiles safe codec raw text decoded unique s r fine before h extract result extracted =
        let w = receive-IsReceived raw s r before h in
        let after = (receive texts on_disk others raw s).1 in
        let first = (put_data texts.sha256_hex on_disk others raw s.cas).1 in
        let later =
          put_data-Keeps texts.sha256_hex on_disk others safe.keeps (representation texts w.text)
            first in
        let (named, content, read, same) =
          put_data-get texts.sha256_hex on_disk others raw r.source_id s.cas
            (λ o there.
              scan-found texts.sha256_hex _ o (others s.cas) (safe.sound s.cas fine) there)
            w.put_raw after.cas (rw w.stored later) in
        let own = unique content same in
        let is : w.text ≡ text = some_inj (sym w.decoded ∙ decoded) in
        compile_completes extract r.source_id raw text (canonical_text text) after result
          w.open_manifest (read ∙ ap ok own) decoded (codec (canonical_text text)) extracted
