-- ===== src/Sources/Examples.antt =====
-- A source with two lines, stored, received and compiled, and the theorems of cas.py and ingest.py at it.
use wiki_spike.Base.{
  if◌then◌else◌, ◌=s◌, String, false, ◌≡◌, refl, none, some, [], ◌∷◌, inl, String-discrete,
}
use wiki_spike.Exec.{Result, ok, err, illegal_transition}
use wiki_spike.Table.{find, put, insert_or_ignore}
use wiki_spike.Models.Manifest.{staged, legal_transitions, transition, received_manifest}
use wiki_spike.Sources.Store.{Cas, get, put_data, scan}
use wiki_spike.Sources.Store.Intact.{put_data-get, scan-found}
use wiki_spike.Sources.Ingest.{
  Texts, Sources, ReceiveResult, ExtractResult, representation, manifest_of, replace_cr,
  replace_crlf, receive, compile,
}
use wiki_spike.Sources.Ingest.Complete.{IsSafe, canonical_text, compiled, receive_compiles}

abbrev texts : Texts
texts = record { sha256_hex = λ b. b; decode = λ b. some b; encode = λ t. t; nfc = λ t. t }

abbrev same {ℓ} : {A : Type ℓ} → A → A
same a = a

abbrev empty_cas : Cas
empty_cas = record { objects = []; tombstones = [] }

abbrev empty : Sources
empty = record { cas = empty_cas; manifests = []; representations = [] }

unified : representation texts "a\r\nb\rc" ≡ "a\nb\nc"
unfolding representation replace_cr replace_crlf
unified = refl

abbrev after_put : Cas
after_put = (put_data (λ b. b) same same "a\r\nb" empty_cas).1

stored : (put_data (λ b. b) same same "a\r\nb" empty_cas).0 ≡ ok "a\r\nb"
unfolding put_data find String-discrete
stored = refl

empty_scan : scan (λ b. b) empty_cas ≡ []
unfolding scan
empty_scan = refl

put_data-get_example :
    (◌≡◌ {A = String} "a\r\nb" "a\r\nb")
    × (content : String) × ((get (λ b. b) "a\r\nb" after_put).0 ≡ ok content)
    × (content ≡ "a\r\nb")
put_data-get_example =
    put_data-get (λ b. b) same same "a\r\nb" "a\r\nb" empty_cas
      (λ o there. scan-found (λ b. b) "a\r\nb" o empty_cas empty_scan there) stored after_put
      (λ d o h. h)

abbrev received_result : ReceiveResult
received_result = record {
  source_id = "a\r\nb";
  content_hash = "a\r\nb";
  representation_hash = "a\nb";
  status = staged;
  idempotent = false;
}

received_first : (receive texts same same "a\r\nb" empty).0 ≡ ok received_result
unfolding receive put_data find put insert_or_ignore representation manifest_of replace_cr
    replace_crlf transition legal_transitions received_manifest String-discrete
received_first = refl

abbrev result : ExtractResult
result = record { claims = []; revokes = "c1" ∷ [] }

abbrev extract : String → String → String → Result ExtractResult
extract text id hash = if text =s "a\nb" then ok result else err illegal_transition

safe : IsSafe (λ b. b) same
safe = record { keeps = λ s d o h. h; sound = λ s h. h }

no_manifest : find String-discrete (λ m. m.source_id) "a\r\nb" empty.manifests ≡ none
unfolding find
no_manifest = refl

extracts :
    extract (canonical_text texts "a\r\nb") "a\r\nb" (canonical_text texts "a\r\nb") ≡ ok result
unfolding String-discrete replace_cr replace_crlf
extracts = refl

receive_compiles_example :
    (compile texts extract "a\r\nb" (receive texts same same "a\r\nb" empty).1).0
    ≡ ok (compiled "a\r\nb" result)
receive_compiles_example =
    receive_compiles texts same same safe (λ t. refl) "a\r\nb" "a\r\nb" refl (λ b h. h) empty
      received_result empty_scan (inl no_manifest) received_first extract result extracts
