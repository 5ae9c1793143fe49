-- ===== src/Payload/Collected.antt =====
-- What the first pass of `validate_chat_payload` has found: calls with ids of their own.
use mathlib.Core.List.{map-append, append-nil, append_assoc}
use autonomous_llm_bot.Prelude.{
  String, ◌≡◌, refl, sym, ◌∙◌, ◌≢◌, inl, inr, true, false, Option, none, some, List, [], ◌∷◌, ◌++◌,
  arith, nat_eq, string_eq, Bool-cases, All, contains, eq_iff, if_induction, All-append, Distinct,
  snoc-Distinct,
}
use autonomous_llm_bot.Json.{nonempty_text, Value}
use autonomous_llm_bot.Payload.{Message, Texts, Call, call_parts, Defect}
use autonomous_llm_bot.Payload.Announce.{
  Announced, add_defect, add_call, announce, announce_all, Kept, announces, collect_calls,
  announce_name, announce_id,
}
use autonomous_llm_bot.Payload.Groups.{IsNamed, call_ids}

-- The calls found since `ids` were known.
pub record Extends (ids : List String) (a : Announced) : Type 0 where
  pub known : a.ids ≡ ids ++ call_ids a.surviving
  pub distinct : Distinct a.ids
  pub named : All IsNamed a.surviving

call_ids-snoc : (cs : List Call) (c : Call) → call_ids (cs ++ c ∷ []) ≡ call_ids cs ++ c.id ∷ []
call_ids-snoc cs c = map-append (λ (c : Call). c.id) cs (c ∷ [])

add_call-Extends :
    (ids : List String) (c : Call) (a : Announced)
    → IsNamed c
    → contains a.ids c.id ≡ false
    → Extends ids a
    → Extends ids (add_call c a)
add_call-Extends ids c a n new e = record {
  known =
      rw (e.known, call_ids-snoc a.surviving c)
        (append_assoc ids (call_ids a.surviving) (c.id ∷ []));
  distinct = snoc-Distinct a.ids c.id new e.distinct;
  named = All-append IsNamed a.surviving (c ∷ []) e.named (n, tt);
}

note-Extends :
    (ids : List String) (d : Defect) (a : Announced) → Extends ids a → Extends ids (add_defect d a)
note-Extends ids d a e = record { known = e.known; distinct = e.distinct; named = e.named }

nonempty_text-ne : (v : Option Value) (s : String) → nonempty_text v ≡ some s → s ≢ ""
nonempty_text-ne v s h = ground (arith, eq_iff s "")

announce_name-Extends :
    (t : Texts) (ids : List String) (id : String) (name : Option String) (v : Option Value)
    (a : Announced)
    → id ≢ ""
    → ((s : String) → name ≡ some s → s ≢ "")
    → contains a.ids id ≡ false
    → Extends ids a
    → Extends ids (announce_name t id name v a)
unfolding announce_name
announce_name-Extends t ids id none v a i n new e = note-Extends ids _ a e
announce_name-Extends t ids id (some name) v a i n new e =
    add_call-Extends ids _ _ (i, n name refl) new
      (record { known = e.known; distinct = e.distinct; named = e.named })

announce_id-Extends :
    (t : Texts) (ids : List String) (id name : Option String) (v : Option Value) (a : Announced)
    → ((s : String) → id ≡ some s → s ≢ "")
    → ((s : String) → name ≡ some s → s ≢ "")
    → Extends ids a
    → Extends ids (announce_id t id name v a)
unfolding announce_id
announce_id-Extends t ids none name v a i n e = note-Extends ids _ a e
announce_id-Extends t ids (some id) name v a i n e =
    if_induction (Extends ids) (contains a.ids id) (λ _. note-Extends ids _ a e)
      (λ new. announce_name-Extends t ids id name v a (i id refl) n new e)

announce-Extends :
    (t : Texts) (ids : List String) (call : Value) (a : Announced)
    → Extends ids a
    → Extends ids (announce t call a)
unfolding announce
announce-Extends t ids call a =
    announce_id-Extends t ids _ _ _ a (nonempty_text-ne (call_parts call).0)
      (nonempty_text-ne (call_parts call).1)

pub announce_all-Extends :
    (t : Texts) (ids : List String) (calls : List Value) (a : Announced)
    → Extends ids a
    → Extends ids (announce_all t calls a)
unfolding announce_all
announce_all-Extends t ids [] a e = e
announce_all-Extends t ids (call ∷ calls) a e =
    announce_all-Extends t ids calls (announce t call a) (announce-Extends t ids call a e)

-- What stands beside a message after the first pass.
abbrev pub IsKept : Message × Option (List Call) → Type 0
IsKept (m, none) = announces m ≡ false
IsKept (m, some calls) = (m.role ≡ "assistant") × All IsNamed calls

abbrev pub own_ids : Option (List Call) → List String
own_ids none = []
own_ids (some calls) = call_ids calls

abbrev pub kept_ids : List (Message × Option (List Call)) → List String
kept_ids [] = []
kept_ids ((m, calls) ∷ es) = own_ids calls ++ kept_ids es

announces-assistant : (m : Message) → announces m ≡ true → m.role ≡ "assistant"
announces-assistant m h = (eq_iff m.role "assistant").0 (ground arith)

pub record IsCollected (ids : List String) (k : Kept) : Type 0 where
  pub known : k.ids ≡ ids ++ kept_ids k.entries
  pub distinct : Distinct k.ids
  pub kept : All IsKept k.entries

-- One message with its calls in front of what the rest of the pass finds.
with_calls :
    (m : Message) (ids : List String) (a : Announced) (k : Kept)
    → announces m ≡ true
    → Extends ids a
    → IsCollected a.ids k
    → IsCollected ids (record k { entries = (m, some a.surviving) ∷ k.entries })
with_calls m ids a k announcing e c = record {
  known = c.known ∙ rw e.known (append_assoc ids (call_ids a.surviving) (kept_ids k.entries));
  distinct = c.distinct;
  kept = ((announces-assistant m announcing, e.named), c.kept);
}

pub collect_calls-IsCollected :
    (t : Texts) (ids : List String) (defects : List Defect) (ms : List Message)
    → Distinct ids
    → IsCollected ids (collect_calls t ids defects ms)
unfolding collect_calls
collect_calls-IsCollected t ids defects [] d = record {
  known = sym (append-nil ids);
  distinct = d;
  kept = tt;
}
collect_calls-IsCollected t ids defects (m ∷ ms) d = elim (Bool-cases (announces m)) [
  | inl announcing ↦
      let a =
        announce_all t m.tool_calls (record { ids = ids; surviving = []; defects = defects }) in
      let e =
        announce_all-Extends t ids m.tool_calls
          (record { ids = ids; surviving = []; defects = defects })
          (record { known = sym (append-nil ids); distinct = d; named = tt }) in
      rw (announcing, collect_calls)
        (with_calls m ids a (collect_calls t a.ids a.defects ms) announcing e
          (collect_calls-IsCollected t a.ids a.defects ms e.distinct))
  | inr quiet ↦
      let c = collect_calls-IsCollected t ids defects ms d in
      rw (quiet, collect_calls)
        (record { known = c.known; distinct = c.distinct; kept = (quiet, c.kept) })
]
