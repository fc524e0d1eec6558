-- ===== src/Chunk/Indexed.antt =====
-- What is indexed of a note (crates/contextos-search/src/document.rs), and the chunk of a query
-- (crates/contextos-search/src/chunk.rs). The parser of the frontmatter, the property
-- `is_alphanumeric` of Unicode and SHA-256 are parameters; `T` is the time.
pub mod Trails
use context_os_mcp.Prelude.{
  Bool, List, Option, Result, Text, [], bytes, codes, err, if◌then◌else◌, list_eq, map, nat_eq,
  none, ok, option_eq, reverse, some, trim, ℕ, ◌-◌, ◌/◌, ◌==◌, ◌||◌, ◌∷◌,
}
use context_os_mcp.Hash.{ContentHash, from_bytes}
use context_os_mcp.FilePath.{FilePath}
use context_os_mcp.Vault.Root.{file_name}
use context_os_mcp.Vault.Confine.{VaultPath, split_once}
use context_os_mcp.Tags.{TagsValue, tags_array, tags_string, no_tags, extract_tags}
use context_os_mcp.Query.Value.{
  Value, string, array, Values, no_values, value, Members, no_members, get,
}
use context_os_mcp.Chunk.Headings.{extract_headings}
use context_os_mcp.Chunk.Document.{Chunk, relative_display}

pub record DocumentSource (T : Type 0) : Type 0 where
  pub path : VaultPath
  pub content : Text
  pub modified : T

pub record IndexedDocument (T : Type 0) : Type 0 where
  pub path : Text
  pub title : Text
  pub headings : List Text
  pub body : Text
  pub tags : List Text
  pub frontmatter : Members
  pub modified : T
  pub content_hash : ContentHash

-- `Value::as_str`
abbrev pub as_str : Value → Option Text
as_str (string text) = some text
as_str _ = none

abbrev pub strings_in : Values → List (Option Text)
strings_in no_values = []
strings_in (value v items) = as_str v ∷ strings_in items

abbrev pub tags_value : Option Value → TagsValue
tags_value (some (array items)) = tags_array (strings_in items)
tags_value (some (string text)) = tags_string text
tags_value _ = no_tags

-- `Path::file_stem` of a name: what stands before its last dot, unless that is nothing
abbrev pub before_dot : Text → Option (Text × Text) → Text
before_dot name none = name
before_dot name (some (_, [])) = name
before_dot name (some (_, c ∷ front)) = reverse (c ∷ front)

abbrev pub file_stem : Text → Text
file_stem name = before_dot name (split_once (codes ".") (reverse name))

abbrev pub humanised : ℕ → ℕ
humanised c = if c == b'-' || c == b'_' then b' ' else c

abbrev pub humanised_name : Option Text → Text
humanised_name none = []
humanised_name (some name) = trim (map humanised (file_stem name))

-- `humanised_stem`
unfoldable pub humanised_stem : VaultPath → Text
humanised_stem path = humanised_name (file_name path.relative)

abbrev pub first_or : List Text → Text → Text
first_or [] stem = stem
first_or (heading ∷ headings) stem = heading

abbrev pub text_in : Option Value → Text
text_in (some (string text)) = trim text
text_in _ = []

abbrev pub unless_blank : Text → Text → Text
unless_blank [] later = later
unless_blank (c ∷ title) later = c ∷ title

-- `derive_title`
unfoldable pub derive_title : Members → List Text → VaultPath → Text
derive_title frontmatter headings path =
    unless_blank (text_in (get (codes "title") frontmatter))
      (first_or headings (humanised_stem path))

-- An invalid frontmatter belongs to the body.
abbrev pub parts_of {ℓ} : {F : Type ℓ} → Text → Result F (Members × Text) → Members × Text
parts_of content (ok parts) = parts
parts_of content (err _) = (no_members, content)

module _ {F T : Type 0} (parse : Text → Result F (Members × Text)) (is_alphanumeric : ℕ → Bool)
    (sha256 : List ℕ → List ℕ) where
  abbrev pub document_of : DocumentSource T → Members × Text → IndexedDocument T
  document_of source (frontmatter, body) = record {
    path = relative_display source.path;
    title = derive_title frontmatter (extract_headings body) source.path;
    headings = extract_headings body;
    body = body;
    tags = extract_tags is_alphanumeric (tags_value (get (codes "tags") frontmatter)) body;
    frontmatter = frontmatter;
    modified = source.modified;
    content_hash = from_bytes (sha256 (bytes source.content));
  }

  -- `IndexedDocument::from`
  unfoldable pub indexed_document : DocumentSource T → IndexedDocument T
  indexed_document source = document_of source (parts_of source.content (parse source.content))

-- `Chunk::query`
unfoldable pub query : (List ℕ → List ℕ) → Text → Chunk
query sha256 text = record {
  path = [];
  ordinal = 0;
  heading_context = [];
  text = text;
  content_hash = from_bytes (sha256 (bytes text));
}
