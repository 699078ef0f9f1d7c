-- ===== src/Assembler/Pages.antt =====
-- assembler.py: `_slug`, `_page_path`, `render_pages` and `wiki_files_root`.
use wiki_spike.Base.{String, false, List, [], ◌∷◌, map, if◌then◌else◌, String-discrete, ◌=s◌}
use wiki_spike.Base.Texts.{append, take, is_empty}
use wiki_spike.Base.TextOrder.{leb_text}
use wiki_spike.Base.Sorting.{sort}
use wiki_spike.Table.{put}
use wiki_spike.Models.{CompiledClaim, Polarity, positive, negative}
use wiki_spike.Json.{object, texts}
use wiki_spike.Assembler.{Encoding, canonical_hash}
use wiki_spike.Assembler.Markup.{sanitize, collapse, strip_start, strip_end}

-- by_subject: the claims of a subject, by their ids
pub record Subject : Type 0 where
  pub subject_id : String
  pub claims : List CompiledClaim

abbrev pub claim_id : CompiledClaim → String
claim_id c = c.identity.claim_id

-- `by_subject.setdefault(subject, {})[claim_id] = c`
unfoldable pub file_claim : CompiledClaim → List Subject → List Subject
unfolding put
file_claim c [] = record { subject_id = c.identity.subject_id; claims = c ∷ [] } ∷ []
file_claim c (s ∷ rest) =
    if s.subject_id =s c.identity.subject_id
    then record s { claims = put String-discrete claim_id c s.claims } ∷ rest
    else s ∷ file_claim c rest

unfoldable pub by_subject : List Subject → List CompiledClaim → List Subject
unfolding file_claim
by_subject subjects [] = subjects
by_subject subjects (c ∷ cs) = by_subject (file_claim c subjects) cs

abbrev pub negation : Polarity → String
negation positive = ""
negation negative = "does not "

unfoldable pub claim_line : String → CompiledClaim → String
unfolding sanitize
claim_line subject c = append "- " (
    append (sanitize subject) (
      append " " (
        append (negation c.identity.polarity) (
          append (sanitize c.identity.predicate_id) (
            append " " (
              append (sanitize c.identity.obj)
                (append " [" (append (take 12 c.identity.claim_id) "]"))))))))

-- `"\n".join(lines) + "\n"`
abbrev pub join_lines : List String → String
join_lines [] = ""
join_lines (l ∷ ls) = append l (append "\n" (join_lines ls))

unfoldable pub page : Subject → String
unfolding claim_line sanitize sort
page s =
    let claims = sort (λ a b. leb_text (claim_id a) (claim_id b)) s.claims in
    join_lines (append "# " (sanitize s.subject_id) ∷ "" ∷ map (claim_line s.subject_id) claims)

module _ {B : Type 0} (encoding : Encoding B) where
  -- `_slug`
  unfoldable pub slug : String → String
  unfolding collapse
  slug s = strip_end (strip_start (collapse false (encoding.lower s)))

  -- `_page_path`
  unfoldable pub page_path : String → String
  unfolding slug
  page_path subject =
      let stem = slug subject in
      let suffix = take 12 (encoding.sha256_hex (encoding.encode subject)) in
      append "wiki/"
        (append (if is_empty stem then "entity" else stem) (append "--" (append suffix ".md")))

  abbrev pub add_pages : List (String × B) → List Subject → List (String × B)
  add_pages pages [] = pages
  add_pages pages (s ∷ rest) =
      add_pages
        (put String-discrete (λ (p : String × B). p.0)
          (page_path s.subject_id, encoding.encode (page s)) pages)
        rest

  unfoldable pub render_pages : List CompiledClaim → List (String × B)
  unfolding by_subject page page_path sort put
  render_pages accepted =
      add_pages [] (sort (λ a b. leb_text a.subject_id b.subject_id) (by_subject [] accepted))

  -- A hash of the object from path to hash
  unfoldable pub wiki_files_root : List (String × B) → String
  unfolding sort leb_text
  wiki_files_root pages =
      let by_path = sort (λ (p : String × B) (q : String × B). leb_text p.0 q.0) pages in
      canonical_hash encoding
        (object (texts (map (λ (p : String × B). (p.0, encoding.sha256_hex p.1)) by_path)))
