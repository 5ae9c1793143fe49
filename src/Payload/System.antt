-- ===== src/Payload/System.antt =====
-- Where `validate_chat_payload` leaves system messages.
use autonomous_llm_bot.Prelude.{
  ℕ, ◌+◌, ◌≡◌, refl, sym, ◌∙◌, ◌≢◌, inl, inr, Bool, true, false, not, ◌&&◌, ◌||◌, Option, none,
  some, List, [], ◌∷◌, ◌++◌, arith, ◌==◌, ==_iff, nat_eq, string_eq, Option-cases, All,
  if_induction, All-append, is_nil, ==_apart,
}
use autonomous_llm_bot.Dict.{lookup}
use autonomous_llm_bot.Payload.{Message, Texts, Call}
use autonomous_llm_bot.Payload.Answers.{FoundResults}
use autonomous_llm_bot.Payload.Rebuild.{
  head_message, unanswered, replies, Rebuilt, rebuild_group, rebuild_calls, rebuild_orphan,
  demoted_system, rebuild_message, rebuild,
}
use autonomous_llm_bot.Payload.Groups.{SystemFirst}
use autonomous_llm_bot.Payload.Collected.{IsKept}
use autonomous_llm_bot.Payload.Answering.{IsAnswering}

abbrev pub NotSystem : Message → Type 0
NotSystem m = m.role ≢ "system"

reply_NotSystem : (m : Message) → m.role ≡ "tool" → NotSystem m
reply_NotSystem m r h = ==_apart "tool" "system" refl (sym r ∙ h)

replies-NotSystem :
    (a : FoundResults) (cs : List Call) → IsAnswering a → All NotSystem (replies a.answers cs)
unfolding replies
replies-NotSystem a [] v = tt
replies-NotSystem a (c ∷ cs) v = elim (Option-cases (lookup c.id a.answers)) [
  | inl new ↦ rw new (reply_NotSystem (unanswered c) refl, replies-NotSystem a cs v)
  | inr (m, found) ↦
      rw found (reply_NotSystem m (v.answering c.id m found).0, replies-NotSystem a cs v)
]

-- Only the first message of the payload may be a system message.
abbrev pub Follows : Bool → List Message → Type 0
Follows true ms = All NotSystem ms
Follows false ms = SystemFirst ms

follows : (b : Bool) (ms : List Message) → All NotSystem ms → Follows b ms
follows true ms n = n
follows false [] n = tt
follows false (m ∷ ms) n = n.1

Follows-append :
    (b : Bool) (out rest : List Message)
    → Follows b out
    → Follows (b || not (is_nil out)) rest
    → Follows b (out ++ rest)
Follows-append true out rest o r = All-append NotSystem out rest o r
Follows-append false [] rest o r = r
Follows-append false (m ∷ ms) rest o r = All-append NotSystem ms rest o r

orphan-NotSystem :
    (o : Option Message)
    → ((m : Message) → o ≡ some m → m.role ≡ "user")
    → All NotSystem (rebuild_orphan o).0
unfolding rebuild_orphan
orphan-NotSystem none u = tt
orphan-NotSystem (some m) u = (λ h. ==_apart "user" "system" refl (sym (u m refl) ∙ h), tt)

head_message-role :
    (m : Message) (cs : List Call) → m.role ≡ "assistant" → (head_message m cs).role ≡ "assistant"
unfolding head_message
head_message-role m cs r = ground arith

group-Follows :
    (a : FoundResults) (b : Bool) (m : Message) (calls : Option (List Call)) (position : ℕ)
    → IsAnswering a
    → IsKept (m, calls)
    → (m.role == "system" && b) ≡ false
    → Follows b (rebuild_calls a position m calls).0
unfolding rebuild_calls rebuild_group
group-Follows a true m none position v k n =
    (λ h. absurd (cc (n, (==_iff m.role "system").1 h)), tt)
group-Follows a false m none position v k n = tt
group-Follows a b m (some cs) position v k n =
    follows b (head_message m cs ∷ replies a.answers cs) (
      λ h. ==_apart "assistant" "system" refl (sym (head_message-role m cs k.0) ∙ h),
      replies-NotSystem a cs v,
    )

rebuild_message-Follows :
    (t : Texts) (a : FoundResults) (position : ℕ) (started : Bool) (m : Message)
    (calls : Option (List Call))
    → IsAnswering a
    → IsKept (m, calls)
    → Follows started (rebuild_message t a position started m calls).0
unfolding rebuild_message
rebuild_message-Follows t a position started m calls v k =
    if_induction (λ (r : Rebuilt). Follows started r.0) (m.role == "tool")
      (λ _. follows started _ (orphan-NotSystem _ (λ n e. (v.orphaned position n e).0)))
      (λ _.
        if_induction (λ (r : Rebuilt). Follows started r.0) (m.role == "system" && started)
          (λ _. follows started (demoted_system t m ∷ []) (==_apart "user" "system" refl, tt))
          (group-Follows a started m calls position v k))

pub rebuild-Follows :
    (t : Texts) (a : FoundResults) (position : ℕ) (started : Bool)
    (entries : List (Message × Option (List Call)))
    → IsAnswering a
    → All IsKept entries
    → Follows started (rebuild t a position started entries).0
unfolding rebuild
rebuild-Follows t a position started [] v k = follows started [] tt
rebuild-Follows t a position started ((m, calls) ∷ entries) v k =
    Follows-append started _ _ (rebuild_message-Follows t a position started m calls v k.0)
      (rebuild-Follows t a (position + 1) _ entries v k.1)
