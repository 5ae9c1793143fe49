-- ===== src/RunState/Items.antt =====
-- The items that `_normalize_artifact_manifest` lets through, and reading one again.
use autonomous_llm_bot.Prelude.{
  ℕ, ◌≤◌, String, ◌≡◌, refl, subst, inl, inr, true, false, ◌&&◌, Option, none, some, arith, le→leb,
  ◌==◌, nat_eq, string_eq, Bool-cases, Option-cases,
}
use autonomous_llm_bot.Json.{
  Value, text, number, get, text_of, fields_of, natural_of, nonempty_text, nonempty_text-eq,
  nonempty_text-text, positive_of,
}
use autonomous_llm_bot.RunState.{Platform}
use autonomous_llm_bot.RunState.Manifest.{
  ManifestItem, is_safe_path, is_kind, is_revision, revision_entry, manifest_item_of, manifest_item,
}
use autonomous_llm_bot.RunState.Record.{item_value, revision_fields}
use autonomous_llm_bot.RunState.Contract.{positive_of-le}

pub record IsItem (p : Platform) (i : ManifestItem) : Type 0 where
  pub present : (i.path == "") ≡ false
  pub safe : is_safe_path p i.path ≡ true
  pub known : is_kind i.kind ≡ true
  pub step : 1 ≤ i.step
  pub revised : (r : String) → i.revision ≡ some r → is_revision r ≡ true

revision_entry-valid :
    (v : Option Value) (o : Option String) (r : String)
    → revision_entry v ≡ some o
    → o ≡ some r
    → is_revision r ≡ true
unfolding revision_entry
revision_entry-valid none o r h e = absurd (cc)
revision_entry-valid (some v) o r h e = elim (Option-cases (text_of (some v))) [
  | inl other ↦ absurd (ground arith)
  | inr (s, found) ↦ elim (Bool-cases (is_revision s)) [
    | inl good ↦
        let same : s ≡ r = ground arith in subst (λ (x : String). is_revision x ≡ true) same good
    | inr bad ↦ absurd (ground arith)
  ]
]

manifest_item_of-IsItem :
    (p : Platform) (a k : Option String) (s : Option ℕ) (r : Option (Option String))
    (i : ManifestItem)
    → ((x : String) → a ≡ some x → (x == "") ≡ false)
    → ((n : ℕ) → s ≡ some n → 1 ≤ n)
    → ((o : Option String) (x : String) → r ≡ some o → o ≡ some x → is_revision x ≡ true)
    → manifest_item_of p a k s r ≡ some i
    → IsItem p i
unfolding manifest_item_of
manifest_item_of-IsItem p none k s r i f g h e = absurd (cc)
manifest_item_of-IsItem p (some a) none s r i f g h e = absurd (cc)
manifest_item_of-IsItem p (some a) (some k) none r i f g h e = absurd (cc)
manifest_item_of-IsItem p (some a) (some k) (some s) none i f g h e = absurd (cc)
manifest_item_of-IsItem p (some a) (some k) (some s) (some r) i f g h e =
    elim (Bool-cases (is_safe_path p a && is_kind k)) [
      | inr bad ↦ absurd (ground arith)
      | inl good ↦
          let made : record { path = a; kind = k; step = s; revision = r } ≡ i = ground arith in
          subst (IsItem p) made (record {
            present = f a refl;
            safe = ground arith;
            known = ground arith;
            step = g s refl;
            revised = λ x. h r x refl;
          })
    ]

pub manifest_item-IsItem :
    (p : Platform) (v : Value) (i : ManifestItem) → manifest_item p v ≡ some i → IsItem p i
unfolding manifest_item
manifest_item-IsItem p v i h = elim (Option-cases (fields_of (some v))) [
  | inl other ↦ absurd (ground arith)
  | inr (fs, found) ↦
      manifest_item_of-IsItem p (nonempty_text (get "path" fs)) (text_of (get "kind" fs))
        (positive_of (get "step" fs)) (revision_entry (get "revision" fs)) i
        (λ x e. (nonempty_text-eq (get "path" fs) x e).1) (positive_of-le (get "step" fs))
        (revision_entry-valid (get "revision" fs)) (ground arith)
]

manifest_item_some :
    (p : Platform) (a k : Option String) (s : Option ℕ) (r : Option (Option String))
    (i : ManifestItem)
    → a ≡ some i.path
    → k ≡ some i.kind
    → s ≡ some i.step
    → r ≡ some i.revision
    → IsItem p i
    → manifest_item_of p a k s r ≡ some i
unfolding manifest_item_of
manifest_item_some p a k s r i a' k' s' r' v = rw (a', k', s', r') (rw (v.safe, v.known) refl)

revision_again :
    (o : Option String)
    → ((r : String) → o ≡ some r → is_revision r ≡ true)
    → revision_entry (get "revision" (revision_fields o)) ≡ some o
unfolding revision_entry get text_of
revision_again none h = refl
revision_again (some r) h = rw (h r refl) refl

number_again : (n : ℕ) → 1 ≤ n → positive_of (some (number n)) ≡ some n
unfolding natural_of
number_again n h = rw (le→leb 1 n h) refl

kind_again : (s : String) → text_of (some (text s)) ≡ some s
unfolding text_of
kind_again s = refl

pub manifest_item_again :
    (p : Platform) (i : ManifestItem) → IsItem p i → manifest_item p (item_value i) ≡ some i
unfolding manifest_item fields_of get
manifest_item_again p i v =
    manifest_item_some p (nonempty_text (some (text i.path))) (text_of (some (text i.kind)))
      (positive_of (some (number i.step))) _ i (nonempty_text-text i.path v.present)
      (kind_again i.kind) (number_again i.step v.step) (revision_again i.revision v.revised) v
