-- ===== src/Assembler/Escaped.antt =====
-- The texts of a claim in a page: what is escaped, and that it is shown as it is written.
use Prim.Native.Char.{Char, code}
use Prim.Native.Nat.{zero, suc}
use Prim.Native.String.{[], ◌∷◌}
use wiki_spike.Base.{ℕ, String, Bool, true, false, not, ◌&&◌, ◌||◌, ◌==◌, ◌≡◌, if◌then◌else◌}
use wiki_spike.Base.Texts.{append, starts_with}

abbrev occurs : ℕ → String → Bool
occurs n [] = false
occurs n (c ∷ []) = n == code c
occurs n (c ∷ d ∷ s) = n == code c || occurs n (d ∷ s)

-- The punctuation that Markdown gives a meaning, and the angles of HTML
unfoldable pub is_markup : Char → Bool
is_markup c = occurs (code c) "\\`*_{}[]()#+-!<>|"

-- Each such character stands behind a backslash of its own, no angle is left, and each ampersand begins
-- one of three entities.
unfoldable pub is_escaped : String → Bool
is_escaped [] = true
is_escaped (c ∷ []) = not (is_markup c) && not (occurs (code c) "<>&")
is_escaped (c ∷ d ∷ s) =
    if code c == b'\\'
    then not (occurs (code d) "<>&") && is_markup d && is_escaped s
    else not (is_markup c)
      && (not (code c == b'&')
          || starts_with "amp;" (d ∷ s)
          || starts_with "lt;" (d ∷ s)
          || starts_with "gt;" (d ∷ s))
      && is_escaped (d ∷ s)

-- The character that an entity stands for, and the number of characters behind its ampersand.
abbrev entity : String → (Char × ℕ)
entity s =
    if starts_with "amp;" s
    then ("&", 4)
    else if starts_with "lt;" s
    then ("<", 3)
    else if starts_with "gt;" s
    then (">", 3)
    else ("&", 0)

-- The text that a renderer shows, which skips so many characters first: a backslash hides behind the
-- character that it escapes, and an entity is shown as its character.
unfoldable pub shown : ℕ → String → String
shown n [] = []
shown (suc n) (c ∷ s) = shown n s
shown zero (c ∷ []) = c ∷ []
shown zero (c ∷ d ∷ s) =
    let escaped = shown 1 (d ∷ s) in
    let next = shown zero (d ∷ s) in
    let behind = shown (entity (d ∷ s)).1 (d ∷ s) in
    if code c == b'\\'
    then d ∷ escaped
    else if code c == b'&'
    then (entity (d ∷ s)).0 ∷ behind
    else c ∷ next

-- What a character is written as.
abbrev written : Char → String
written c =
    if code c == b'&'
    then "&amp;"
    else if code c == b'<'
    then "&lt;"
    else if code c == b'>'
    then "&gt;"
    else if is_markup c
    then "\\" ∷ c ∷ []
    else c ∷ []

-- What holds of a character that is written.
abbrev IsWritten : Char → String → Type 0
IsWritten c w =
    (t : String)
    → (is_escaped t ≡ true → is_escaped (append w t) ≡ true)
      × (shown 0 (append w t) ≡ c ∷ shown 0 t)
