-- ===== src/Payload/Announce.antt =====
-- bot.py, `validate_chat_payload`, the first pass: which calls of the assistant messages stay.
use autonomous_llm_bot.Prelude.{
  String, Bool, true, false, not, ◌&&◌, Option, none, some, List, [], ◌∷◌, ◌++◌, if◌then◌else◌,
  ◌==◌, nat_eq, string_eq, contains, is_nil,
}
use autonomous_llm_bot.Json.{nonempty_text, Value, null, text_of}
use autonomous_llm_bot.Payload.{
  Message, Texts, Call, call_parts, Defect, tool_arguments_not_string, tool_call_id_duplicate,
  tool_call_id_missing, tool_name_missing,
}

-- `announced` (its keys, in order), `surviving` and `defects`.
pub record Announced : Type 0 where
  pub ids : List String
  pub surviving : List Call
  pub defects : List Defect

abbrev pub add_defect : Defect → Announced → Announced
add_defect d a = record a { defects = a.defects ++ d ∷ [] }

abbrev pub add_call : Call → Announced → Announced
add_call c a = record a { ids = a.ids ++ c.id ∷ []; surviving = a.surviving ++ c ∷ [] }

-- Arguments that are no text are written as json.
unfoldable pub argument_text : Texts → Option Value → String × List Defect
argument_text t v = elim (text_of v) [
  | some s ↦ (s, [])
  | none ↦ (t.dumps (elim v [ none ↦ null | some w ↦ w ]), tool_arguments_not_string ∷ [])
]

unfoldable pub announce_name : Texts → String → Option String → Option Value → Announced → Announced
announce_name t id none arguments a = add_defect tool_name_missing a
announce_name t id (some name) arguments a =
    add_call (record { id = id; name = name; arguments = (argument_text t arguments).0 })
      (record a { defects = a.defects ++ (argument_text t arguments).1 })

unfoldable pub announce_id :
    Texts → Option String → Option String → Option Value → Announced → Announced
unfolding announce_name argument_text
announce_id t none name arguments a = add_defect tool_call_id_missing a
announce_id t (some id) name arguments a =
    if contains a.ids id
    then add_defect tool_call_id_duplicate a
    else announce_name t id name arguments a

-- The body of the loop over the calls of one message.
unfoldable pub announce : Texts → Value → Announced → Announced
unfolding announce_id
announce t call a =
    announce_id t (nonempty_text (call_parts call).0) (nonempty_text (call_parts call).1)
      (call_parts call).2 a

unfoldable pub announce_all : Texts → List Value → Announced → Announced
announce_all t [] a = a
announce_all t (call ∷ calls) a = announce_all t calls (announce t call a)

-- Each message with `kept_calls.get(position)`, and what the pass has found.
pub record Kept : Type 0 where
  pub entries : List (Message × Option (List Call))
  pub ids : List String
  pub defects : List Defect

abbrev pub announces : Message → Bool
announces m = m.role == "assistant" && not (is_nil m.tool_calls)

-- The pass over the messages from one on, with the ids and defects found before it.
unfoldable pub collect_calls : Texts → List String → List Defect → List Message → Kept
collect_calls t ids defects [] = record { entries = []; ids = ids; defects = defects }
collect_calls t ids defects (m ∷ ms) = elim (announces m) [
  | false ↦
      let rest = collect_calls t ids defects ms in
      record rest { entries = (m, none) ∷ rest.entries }
  | true ↦
      let a =
        announce_all t m.tool_calls (record { ids = ids; surviving = []; defects = defects }) in
      let rest = collect_calls t a.ids a.defects ms in
      record rest { entries = (m, some a.surviving) ∷ rest.entries }
]
