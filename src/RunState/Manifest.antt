-- ===== src/RunState/Manifest.antt =====
-- run_state.py, `_normalize_artifact_manifest`.
use autonomous_llm_bot.Prelude.{
  ℕ, code, String, Bool, true, false, not, ◌&&◌, ◌||◌, Option, none, some, List, [], ◌∷◌, ◌++◌, leb,
  if◌then◌else◌, ◌==◌, nat_eq, string_eq, length, contains,
}
use autonomous_llm_bot.Json.{
  Value, elements, Values, no_values, item, get, text_of, fields_of, nonempty_text, positive_of,
}
use autonomous_llm_bot.Text
use Prim.Native.String.{◌++◌ as append}
use autonomous_llm_bot.Trajectory.{is_digest}
use autonomous_llm_bot.RunState.{Platform, equals, has_unsafe_path_chars}

pub record ManifestItem : Type 0 where
  pub path : String
  pub kind : String
  pub step : ℕ
  pub revision : Option String

abbrev pub artifact_manifest_max_items : ℕ
artifact_manifest_max_items = 24

-- The parts of a text between the slashes, the first argument being the part that is read.
unfoldable pub slash_parts : String → String → List String
slash_parts part String.[] = part ∷ []
slash_parts part (String.◌∷◌ c s) =
    let next = slash_parts "" s in
    let same = slash_parts (append part (String.◌∷◌ c String.[])) s in
    if code c == b'/' then part ∷ next else same

-- Path(path).is_absolute()
unfoldable pub is_absolute : String → Bool
is_absolute String.[] = false
is_absolute (String.◌∷◌ c s) = code c == b'/'

-- ".." in Path(path).parts: pathlib leaves out empty parts and ".", which changes nothing here.
unfoldable pub has_parent_part : String → Bool
unfolding slash_parts
has_parent_part s = contains (slash_parts "" s) ".."

unfoldable pub is_safe_path : Platform → String → Bool
unfolding is_absolute has_parent_part has_unsafe_path_chars
is_safe_path p s =
    leb (Text.length s) 512 && not (is_absolute s || has_parent_part s || has_unsafe_path_chars p s)

abbrev pub is_kind : String → Bool
is_kind s = s == "workspace_file" || s == "tool_output"

-- REVISION_PATTERN.fullmatch(s)
unfoldable pub is_revision : String → Bool
is_revision s = Text.prefix 7 s == "sha256:" && is_digest (Text.drop 7 s)

-- The revision of an item: none where there is no such entry, and no item where it is malformed.
unfoldable pub revision_entry : Option Value → Option (Option String)
revision_entry none = some none
revision_entry (some v) = elim (text_of (some v)) [
  | none ↦ none
  | some s ↦ if is_revision s then some (some s) else none
]

unfoldable pub manifest_item_of :
    Platform
    → Option String
    → Option String
    → Option ℕ
    → Option (Option String)
    → Option ManifestItem
unfolding is_safe_path
manifest_item_of p (some path) (some kind) (some step) (some revision) =
    if is_safe_path p path && is_kind kind
    then some (record { path = path; kind = kind; step = step; revision = revision })
    else none
manifest_item_of p _ _ _ _ = none

-- The checks of one item.
unfoldable pub manifest_item : Platform → Value → Option ManifestItem
unfolding manifest_item_of revision_entry
manifest_item p v = elim (fields_of (some v)) [
  | none ↦ none
  | some fs ↦
      manifest_item_of p (nonempty_text (get "path" fs)) (text_of (get "kind" fs))
        (positive_of (get "step" fs)) (revision_entry (get "revision" fs))
]

-- The loop: a path counts once, and the loop ends when there are enough items.
unfoldable pub collect_items :
    Platform → Values → List String → List ManifestItem → List ManifestItem
collect_items p no_values seen items = items
collect_items p (item v vs) seen items = elim (manifest_item p v) [
  | none ↦ collect_items p vs seen items
  | some i ↦ elim (contains seen i.path) [
    | true ↦ collect_items p vs seen items
    | false ↦
        let items' = items ++ i ∷ [] in
        let rest = collect_items p vs (i.path ∷ seen) items' in
        if leb artifact_manifest_max_items (length items') then items' else rest
  ]
]

-- The items of an entry that is no list are none.
unfoldable pub items_entry : Platform → Option Value → List ManifestItem
unfolding collect_items elements
items_entry p v = collect_items p (elements v) [] []

-- The items of the normalised manifest.
unfoldable pub normalize_artifact_manifest : Platform → Option Value → List ManifestItem
unfolding items_entry
normalize_artifact_manifest p none = []
normalize_artifact_manifest p (some v) = elim (fields_of (some v)) [
  | none ↦ []
  | some fs ↦ if equals p (get "version" fs) 1 then items_entry p (get "items" fs) else []
]
