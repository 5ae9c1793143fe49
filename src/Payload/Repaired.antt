-- ===== src/Payload/Repaired.antt =====
-- The third pass of `validate_chat_payload` builds groups.
use autonomous_llm_bot.Prelude.{
  ℕ, ◌+◌, String, ◌≡◌, refl, sym, ◌∙◌, subst, ◌≢◌, inl, inr, Bool, true, false, ◌&&◌, Option, none,
  some, List, [], ◌∷◌, ◌++◌, arith, ◌==◌, ==_iff, nat_eq, string_eq, Option-cases, All, eq_iff,
  if_induction, is_nil, ==_apart,
}
use autonomous_llm_bot.Dict.{lookup}
use autonomous_llm_bot.Payload.{Message, Texts, Call, same_calls}
use autonomous_llm_bot.Payload.Announce.{announces}
use autonomous_llm_bot.Payload.Answers.{FoundResults}
use autonomous_llm_bot.Payload.Rebuild.{
  head_message, replies, rebuild_message, Rebuilt, rebuild_orphan, demoted_system, rebuild,
}
use autonomous_llm_bot.Payload.Groups.{
  Replies, IsNamed, IsHead, Grouped, group, call_ids, empty, Reads, Reads-as_value,
  same_calls-Reads,
}
use autonomous_llm_bot.Payload.Collected.{IsKept, kept_ids, own_ids}
use autonomous_llm_bot.Payload.Answering.{IsAnswering}

replies-Replies :
    (a : FoundResults) (cs : List Call) → IsAnswering a → Replies cs (replies a.answers cs)
unfolding replies
replies-Replies a [] v = tt
replies-Replies a (c ∷ cs) v = elim (Option-cases (lookup c.id a.answers)) [
  | inl new ↦ rw new ((refl, refl, (_, refl)), replies-Replies a cs v)
  | inr (m, found) ↦ rw found (v.answering c.id m found, replies-Replies a cs v)
]

assistant-IsHead :
    (m : Message) (cs : List Call)
    → m.role ≡ "assistant"
    → All IsNamed cs
    → Reads cs m.tool_calls
    → IsHead m cs
assistant-IsHead m cs r n s = record {
  not_tool = λ h. ==_apart "assistant" "tool" refl (sym r ∙ h);
  called = λ _. s;
  quiet = λ h. absurd (h r);
  named = n;
}

is_nil-eq_nil {ℓ} : {A : Type ℓ} (xs : List A) → is_nil xs ≡ true → xs ≡ []
is_nil-eq_nil [] h = refl
is_nil-eq_nil (x ∷ xs) h = absurd (cc)

head_message-IsHead :
    (m : Message) (cs : List Call)
    → m.role ≡ "assistant"
    → All IsNamed cs
    → IsHead (head_message m cs) cs
unfolding head_message same_calls
head_message-IsHead m cs r n =
    if_induction (λ h. IsHead h cs) (same_calls cs m.tool_calls)
      (λ same. assistant-IsHead m cs r n (same_calls-Reads cs m.tool_calls same))
      (λ _.
        if_induction (λ h. IsHead h cs) (is_nil cs)
          (λ e. subst (IsHead _) (sym (is_nil-eq_nil cs e)) (assistant-IsHead _ [] refl tt tt))
          (λ _. assistant-IsHead _ cs refl n (Reads-as_value cs)))

-- The groups that one message comes to stand in front of any others.
abbrev Prepends : List String → List Message → Type 0
Prepends own out =
    (ids : List String) (rest : List Message)
    → Grouped ids rest
    → Grouped (own ++ ids) (out ++ rest)

group-Prepends :
    (m : Message) (cs : List Call) (answers : List Message)
    → IsHead m cs
    → Replies cs answers
    → Prepends (call_ids cs) (m ∷ answers)
group-Prepends m cs answers h r ids rest g = group m cs answers rest ids h r g refl refl

-- A message that announces nothing.
quiet-IsHead :
    (m : Message) → m.role ≢ "tool" → (m.role ≡ "assistant" → m.tool_calls ≡ []) → IsHead m []
unfolding same_calls
quiet-IsHead m n q = record {
  not_tool = n;
  called = λ r. rw (q r) tt;
  quiet = λ _. refl;
  named = tt;
}

user-IsHead : (m : Message) → m.role ≡ "user" → IsHead m []
user-IsHead m r =
    quiet-IsHead m (λ h. ==_apart "user" "tool" refl (sym r ∙ h))
      (λ h. absurd (==_apart "user" "assistant" refl (sym r ∙ h)))

announces-quiet : (m : Message) → announces m ≡ false → m.role ≡ "assistant" → m.tool_calls ≡ []
announces-quiet m q r = is_nil-eq_nil m.tool_calls (ground (arith, eq_iff m.role "assistant"))

orphan-Prepends :
    (o : Option Message)
    → ((m : Message) → o ≡ some m → m.role ≡ "user")
    → Prepends [] (rebuild_orphan o).0
unfolding rebuild_orphan
orphan-Prepends none u ids rest g = g
orphan-Prepends (some m) u ids rest g =
    group-Prepends m [] [] (user-IsHead m (u m refl)) tt ids rest g

rebuild_message-Prepends :
    (t : Texts) (a : FoundResults) (position : ℕ) (started : Bool) (m : Message)
    (calls : Option (List Call))
    → IsAnswering a
    → IsKept (m, calls)
    → Prepends (own_ids calls) (rebuild_message t a position started m calls).0
unfolding rebuild_message
rebuild_message-Prepends t a position started m none v k =
    if_induction (λ (r : Rebuilt). Prepends [] r.0) (m.role == "tool")
      (λ _. orphan-Prepends _ (λ n e. (v.orphaned position n e).0))
      (λ other.
        if_induction (λ (r : Rebuilt). Prepends [] r.0) (m.role == "system" && started)
          (λ _. group-Prepends (demoted_system t m) [] [] (user-IsHead _ refl) tt)
          (λ _.
            group-Prepends m [] []
              (quiet-IsHead m (λ e. absurd (cc (other, (==_iff m.role "tool").1 e)))
                (announces-quiet m k))
              tt))
rebuild_message-Prepends t a position started m (some cs) v k =
    if_induction (λ (r : Rebuilt). Prepends (call_ids cs) r.0) (m.role == "tool")
      (λ tool. absurd (assistant_apart "tool" (==_apart "tool" "assistant" refl) tool))
      (λ _.
        if_induction (λ (r : Rebuilt). Prepends (call_ids cs) r.0) (m.role == "system" && started)
          (λ system.
            absurd (assistant_apart "system" (==_apart "system" "assistant" refl) (ground arith)))
          (λ _.
            group-Prepends (head_message m cs) cs (replies a.answers cs)
              (head_message-IsHead m cs k.0 k.1) (replies-Replies a cs v)))
  where
    assistant_apart : (s : String) → s ≢ "assistant" → (m.role == s) ≡ true → ⊥
    assistant_apart s n h = n (sym ((==_iff m.role s).0 h) ∙ k.0)

pub rebuild-Grouped :
    (t : Texts) (a : FoundResults) (position : ℕ) (started : Bool)
    (entries : List (Message × Option (List Call)))
    → IsAnswering a
    → All IsKept entries
    → Grouped (kept_ids entries) (rebuild t a position started entries).0
unfolding rebuild
rebuild-Grouped t a position started [] v k = empty
rebuild-Grouped t a position started ((m, calls) ∷ entries) v k =
    rebuild_message-Prepends t a position started m calls v k.0 _ _
      (rebuild-Grouped t a (position + 1) _ entries v k.1)
