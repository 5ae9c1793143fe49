-- ===== src/Payload/Groups.antt =====
-- What the chat template accepts, said without reference to the code that repairs: a payload is a
-- row of groups, each a message with the results of its calls behind it.
use autonomous_llm_bot.Prelude.{
  String, ◌≡◌, refl, ◌≢◌, inl, inr, true, Option, some, List, [], ◌∷◌, ◌++◌, map, arith, nat_eq,
  string_eq, Option-cases, All, eq_iff, Distinct,
}
use autonomous_llm_bot.Json.{Value, text, get, text_of-eq, text_of, fields_of}
use autonomous_llm_bot.Payload.{
  Message, Call, call_parts, function_parts, is_function, is_text, as_value, is_value_of,
  same_calls,
}

abbrev pub HasText : Message → Type 0
HasText m = (s : String) × (m.content ≡ some (text s))

abbrev pub IsReply : Call → Message → Type 0
IsReply c m = (m.role ≡ "tool") × (m.tool_call_id ≡ some (text c.id)) × HasText m

-- One result for each call, in the order of the calls.
abbrev pub Replies : List Call → List Message → Type 0
Replies [] [] = Unit
Replies [] (m ∷ ms) = ⊥
Replies (c ∷ cs) [] = ⊥
Replies (c ∷ cs) (m ∷ ms) = IsReply c m × Replies cs ms

abbrev pub IsNamed : Call → Type 0
IsNamed c = (c.id ≢ "") × (c.name ≢ "")

-- The entries of a message's `tool_calls` are these calls: each part is there, and a text.
abbrev pub Reads : List Call → List Value → Type 0
Reads [] [] = Unit
Reads [] (v ∷ vs) = ⊥
Reads (c ∷ cs) [] = ⊥
Reads (c ∷ cs) (v ∷ vs) =
    (call_parts v ≡ (some (text c.id), some (text c.name), some (text c.arguments))) × Reads cs vs

-- A message that announces these calls and no others, or is no assistant message and announces none.
pub record IsHead (m : Message) (calls : List Call) : Type 0 where
  pub not_tool : m.role ≢ "tool"
  pub called : m.role ≡ "assistant" → Reads calls m.tool_calls
  pub quiet : m.role ≢ "assistant" → calls ≡ []
  pub named : All IsNamed calls

abbrev pub call_ids : List Call → List String
call_ids = map (λ c. c.id)

-- The payload falls into groups, and its calls have these ids.
pub data Grouped : List String → List Message → Type 0 where
  empty : Grouped [] []
  group :
      {ids : List String} {out : List Message} (m : Message) (calls : List Call)
      (answers rest : List Message) (more : List String)
      → IsHead m calls
      → Replies calls answers
      → Grouped more rest
      → ids ≡ call_ids calls ++ more
      → out ≡ m ∷ (answers ++ rest)
      → Grouped ids out

-- A system message stands nowhere but in front.
abbrev pub SystemFirst : List Message → Type 0
SystemFirst [] = Unit
SystemFirst (m ∷ ms) = All (λ n. n.role ≢ "system") ms

pub record IsDeliverable (ms : List Message) : Type 0 where
  pub ids : List String
  pub grouped : Grouped ids ms
  pub distinct : Distinct ids
  pub system_first : SystemFirst ms

pub Reads-as_value : (cs : List Call) → Reads cs (map as_value cs)
unfolding get fields_of
Reads-as_value [] = tt
Reads-as_value (c ∷ cs) = (refl, Reads-as_value cs)

is_text-eq : (s : String) (o : Option Value) → is_text s o ≡ true → o ≡ some (text s)
is_text-eq s o h = elim (Option-cases (text_of o)) [
  | inl other ↦ absurd (ground arith)
  | inr (r, found) ↦ text_of-eq o s (ground (arith, eq_iff r s))
]

is_function-parts :
    (c : Call) (o : Option Value)
    → is_function c o ≡ true
    → function_parts o ≡ (some (text c.name), some (text c.arguments))
is_function-parts c o h = elim (Option-cases (fields_of o)) [
  | inl other ↦ absurd (ground arith)
  | inr (fs, found) ↦
      ground (arith, is_text-eq c.name (get "name" fs), is_text-eq c.arguments (get "arguments" fs))
]

is_call-parts :
    (c : Call) (v : Value)
    → is_value_of c v ≡ true
    → call_parts v ≡ (some (text c.id), some (text c.name), some (text c.arguments))
is_call-parts c v h = elim (Option-cases (fields_of (some v))) [
  | inl other ↦ absurd (ground arith)
  | inr (fs, found) ↦
      let parts = is_function-parts c (get "function" fs) (ground arith) in
      let id = is_text-eq c.id (get "id" fs) (ground arith) in
      rw (found, call_parts) (cc (parts, id))
]

pub same_calls-Reads : (cs : List Call) (vs : List Value) → same_calls cs vs ≡ true → Reads cs vs
unfolding same_calls
same_calls-Reads [] [] h = tt
same_calls-Reads [] (v ∷ vs) h = absurd (cc)
same_calls-Reads (c ∷ cs) [] h = absurd (cc)
same_calls-Reads (c ∷ cs) (v ∷ vs) h =
    (is_call-parts c v (ground arith), same_calls-Reads cs vs (ground arith))
