-- ===== src/RunState/ItemLoop.antt =====
-- The loop of `_normalize_artifact_manifest`, and normalising its result again.
use mathlib.Core.List.{append_assoc, append-nil, map-append}
use autonomous_llm_bot.Prelude.{
  ◌+◌, ◌≤◌, ◌<◌, String, ◌≡◌, refl, sym, ap, ◌∙◌, subst, inl, inr, false, Option, none, some, List,
  [], ◌∷◌, ◌++◌, map, arith, leb, nat_eq, string_eq, Bool-cases, Option-cases, length,
  length-append, All, contains, if_induction, All-append, Distinct, contains-snoc, snoc-Distinct,
  Distinct-middle,
}
use autonomous_llm_bot.Json.{Value, Values, no_values, item, get, fields_of, elements}
use autonomous_llm_bot.RunState.{Platform, equals}
use autonomous_llm_bot.RunState.Manifest.{
  ManifestItem, artifact_manifest_max_items, manifest_item, collect_items, items_entry,
  normalize_artifact_manifest,
}
use autonomous_llm_bot.RunState.Record.{values_of, item_value, manifest_value}
use autonomous_llm_bot.RunState.Items.{IsItem, manifest_item-IsItem, manifest_item_again}

abbrev pub paths : List ManifestItem → List String
paths = map (λ (i : ManifestItem). i.path)

-- Items with a path of their own each, and not too many.
pub record AreItems (p : Platform) (items : List ManifestItem) : Type 0 where
  pub valid : All (IsItem p) items
  pub distinct : Distinct (paths items)
  pub few : length items ≤ artifact_manifest_max_items

-- `seen` holds the paths of the items.
abbrev Sees : List String → List ManifestItem → Type 0
Sees seen items = (x : String) → contains seen x ≡ contains (paths items) x

paths-snoc :
    (items : List ManifestItem) (i : ManifestItem)
    → paths (items ++ i ∷ []) ≡ paths items ++ i.path ∷ []
paths-snoc items i = map-append (λ (j : ManifestItem). j.path) items (i ∷ [])

Sees-snoc :
    (seen : List String) (items : List ManifestItem) (i : ManifestItem)
    → Sees seen items
    → Sees (i.path ∷ seen) (items ++ i ∷ [])
unfolding contains
Sees-snoc seen items i s x =
    rw paths-snoc (ground (arith, contains-snoc (paths items) i.path x, s x))

snoc-AreItems :
    (p : Platform) (items : List ManifestItem) (i : ManifestItem)
    → AreItems p items
    → IsItem p i
    → contains (paths items) i.path ≡ false
    → length items < artifact_manifest_max_items
    → AreItems p (items ++ i ∷ [])
snoc-AreItems p items i v h new room = record {
  valid = All-append (IsItem p) items (i ∷ []) v.valid (h, tt);
  distinct = rw paths-snoc (snoc-Distinct (paths items) i.path new v.distinct);
  few = omega (arith, length-append items (i ∷ []), room);
}

collect-AreItems :
    (p : Platform) (vs : Values) (seen : List String) (items : List ManifestItem)
    → AreItems p items
    → Sees seen items
    → length items < artifact_manifest_max_items
    → AreItems p (collect_items p vs seen items)
unfolding collect_items
collect-AreItems p no_values seen items v s room = v
collect-AreItems p (item w vs) seen items v s room = elim (Option-cases (manifest_item p w)) [
  | inl dropped ↦ rw (dropped, collect_items) (collect-AreItems p vs seen items v s room)
  | inr (i, kept) ↦ elim (Bool-cases (contains seen i.path)) [
    | inl again ↦ rw (kept, collect_items) (rw again (collect-AreItems p vs seen items v s room))
    | inr new ↦
        let grown =
          snoc-AreItems p items i v (manifest_item-IsItem p w i kept) (sym (s i.path) ∙ new) room in
        rw (kept, collect_items)
          (rw new (
            if_induction (AreItems p) (leb artifact_manifest_max_items (length (items ++ i ∷ [])))
              (λ _. grown)
              (λ more.
                collect-AreItems p vs (i.path ∷ seen) (items ++ i ∷ []) grown
                  (Sees-snoc seen items i s) (ground arith))))
  ]
]

no_items : (p : Platform) → AreItems p []
no_items p = record { valid = tt; distinct = tt; few = omega arith }

items_entry-AreItems : (p : Platform) (v : Option Value) → AreItems p (items_entry p v)
unfolding items_entry contains
items_entry-AreItems p v =
    collect-AreItems p (elements v) [] [] (no_items p) (λ x. refl) (omega arith)

-- Whatever is normalised, at most 24 items come out, with distinct paths that are not empty, have at
-- most 512 characters, are relative, have no part `..` and no control character, a known kind, a
-- positive step, and a revision that is well formed where there is one.
pub normalize_artifact_manifest-AreItems :
    (p : Platform) (v : Option Value) → AreItems p (normalize_artifact_manifest p v)
unfolding normalize_artifact_manifest
normalize_artifact_manifest-AreItems p none = no_items p
normalize_artifact_manifest-AreItems p (some v) = elim (Option-cases (fields_of (some v))) [
  | inl other ↦ rw (other, normalize_artifact_manifest) (no_items p)
  | inr (fs, found) ↦
      rw (found, normalize_artifact_manifest)
        (if_induction (AreItems p) (equals p (get "version" fs) 1)
          (λ _. items_entry-AreItems p (get "items" fs)) (λ _. no_items p))
]

no_more : (xs : List ManifestItem) → length xs ≡ 0 → xs ≡ []
no_more [] h = refl
no_more (x ∷ xs) h = absurd (omega arith)

collect_again :
    (p : Platform) (seen : List String) (items more : List ManifestItem)
    → Sees seen items
    → All (IsItem p) more
    → Distinct (paths (items ++ more))
    → length items + length more ≤ artifact_manifest_max_items
    → collect_items p (values_of item_value more) seen items ≡ items ++ more
unfolding collect_items values_of
collect_again p seen items [] s v d few = rw append-nil refl
collect_again p seen items (i ∷ more) s v d few =
    let regroup : (items ++ i ∷ []) ++ more ≡ items ++ (i ∷ more) =
      append_assoc items (i ∷ []) more in
    let split = map-append (λ (j : ManifestItem). j.path) items (i ∷ more) in
    let new : contains seen i.path ≡ false =
      s i.path ∙ Distinct-middle (paths items) i.path (paths more) (subst Distinct split d) in
    rw (manifest_item_again p i v.0, collect_items)
      (rw new (
        if_induction (λ (r : List ManifestItem). r ≡ items ++ (i ∷ more))
          (leb artifact_manifest_max_items (length (items ++ i ∷ [])))
          (λ full.
            ap (λ (r : List ManifestItem). items ++ (i ∷ r))
              (sym (no_more more (ground (arith, length-append items (i ∷ []))))))
          (λ _.
            collect_again p (i.path ∷ seen) (items ++ i ∷ []) more (Sees-snoc seen items i s) v.1
              (subst (λ (r : List ManifestItem). Distinct (paths r)) (sym regroup) d)
              (omega (arith, length-append items (i ∷ []), few))
            ∙ regroup)))

-- Normalising what has been normalised and written changes nothing.
pub manifest_again :
    (p : Platform) (items : List ManifestItem)
    → AreItems p items
    → normalize_artifact_manifest p (some (manifest_value items)) ≡ items
unfolding normalize_artifact_manifest fields_of get equals items_entry elements contains
manifest_again p items v =
    collect_again p [] [] items (λ x. refl) v.valid v.distinct (omega (arith, v.few))
