-- ===== src/Steering/Delivery.antt =====
-- No accepted instruction is lost, repeated or reordered: what the receipts promised is what is
-- handed over, in the same order, or still waits.
use autonomous_llm_bot.Prelude.{
  ℕ, String, ◌≡◌, refl, sym, ap, true, not, ◌&&◌, List, [], ◌∷◌, ◌++◌, map, arith, leb,
  if◌then◌else◌, ◌==◌, string_eq, any, eq_iff, if_induction,
}
use autonomous_llm_bot.Steering.{
  SteeringMailbox, queued, SteeringItem, SteeringReceipt, accepted, open_mailbox, offer,
  mark_applied, drain, mark, close, drain_pending, same_instruction, depth,
}
use autonomous_llm_bot.Steering.Accounting.{Call, opens, offers, drains, closes, step, run, waiting}
use mathlib.Core.Path.{◌≡⟨◌⟩◌, ◌∎}
use mathlib.Core.List.{append_assoc, append-nil, map-append}

-- An instruction as its sender knows it: author, text and time of arrival.
abbrev pub Instruction : Type 0
Instruction = String × String × ℕ

abbrev pub instruction : SteeringItem → Instruction
instruction i = (i.author, i.text, i.received_at)

-- What a receipt promises to deliver: the offered instruction, if the receipt says `queued`.
abbrev pub promised : SteeringReceipt → String → String → List Instruction
promised r author text = if r.state == queued then (author, text, r.received_at) ∷ [] else []

-- The promises and the hand-overs of one call.
pub promises : SteeringMailbox → Call → List Instruction
promises m (offers author text now) = promised (offer author text now m).1 author text
promises m _ = []

unfoldable pub handed : SteeringMailbox → Call → List Instruction
handed m (drains now) = map instruction (drain now m).1
handed m (closes state reason) = map instruction (close state reason m).1
handed m _ = []

pub all_promises : SteeringMailbox → List Call → List Instruction
all_promises m [] = []
all_promises m (c ∷ cs) = promises m c ++ all_promises (step m c) cs

unfoldable pub all_handed : SteeringMailbox → List Call → List Instruction
all_handed m [] = []
all_handed m (c ∷ cs) = handed m c ++ all_handed (step m c) cs

abbrev pub waiting_instructions : SteeringMailbox → List Instruction
waiting_instructions m = map instruction m.pending

map-mark_applied :
    (now : ℕ) (is : List SteeringItem)
    → map instruction (map (mark_applied now) is) ≡ map instruction is
map-mark_applied now [] = refl
map-mark_applied now (i ∷ is) = ap (◌∷◌ (instruction i)) (map-mark_applied now is)

map-mark :
    (state : String) (is : List SteeringItem)
    → map instruction (map (mark state) is) ≡ map instruction is
map-mark state [] = refl
map-mark state (i ∷ is) = ap (◌∷◌ (instruction i)) (map-mark state is)

offer_keeps :
    (author text : String) (now : ℕ) (m : SteeringMailbox)
    → waiting_instructions m ++ promised (offer author text now m).1 author text
      ≡ waiting_instructions (offer author text now m).0
unfolding offer
offer_keeps author text now m =
    if_induction Keeps (not m.is_open) (λ _. append-nil (waiting_instructions m))
      λ _.
        if_induction Keeps (any (same_instruction author text) m.pending)
          (λ _. append-nil (waiting_instructions m))
          λ _.
            if_induction Keeps (leb m.max_depth (depth m))
              (λ _. append-nil (waiting_instructions m))
              (λ _. sym (map-append instruction m.pending (waiting author text now ∷ [])))
  where
    Keeps : SteeringMailbox × SteeringReceipt → Type 0
    Keeps r = waiting_instructions m ++ promised r.1 author text ≡ waiting_instructions r.0

drain_keeps :
    (now : ℕ) (is : List SteeringItem) (m : SteeringMailbox)
    → let (m', taken) = drain_pending is now (record m { pending = is }) in
      map instruction is ++ [] ≡ map instruction taken ++ waiting_instructions m'
unfolding drain
drain_keeps now [] m = refl
drain_keeps now (i ∷ is) m = ap (λ xs. xs ++ []) (sym (map-mark_applied now (i ∷ is)))

step_keeps :
    (m : SteeringMailbox) (c : Call)
    → waiting_instructions m ++ promises m c ≡ handed m c ++ waiting_instructions (step m c)
unfolding promises handed step open_mailbox drain close
step_keeps m opens = append-nil (waiting_instructions m)
step_keeps m (offers author text now) = offer_keeps author text now m
step_keeps m (drains now) = drain_keeps now m.pending m
step_keeps m (closes state reason) = ap (λ xs. xs ++ []) (sym (map-mark state m.pending))

-- From any mailbox, after any calls: the instructions that waited, followed by those that a receipt
-- called queued, are the instructions that drains and closes handed over, followed by those that
-- still wait, one for one and in order.
pub delivery :
    (m : SteeringMailbox) (cs : List Call)
    → waiting_instructions m ++ all_promises m cs
      ≡ all_handed m cs ++ waiting_instructions (run m cs)
unfolding all_promises all_handed run
delivery m [] = append-nil (waiting_instructions m)
delivery m (c ∷ cs) =
    waiting_instructions m ++ (promises m c ++ all_promises (step m c) cs)
    ≡⟨ sym (append_assoc (waiting_instructions m) (promises m c) _) ⟩
      (waiting_instructions m ++ promises m c) ++ all_promises (step m c) cs
    ≡⟨ ap (λ xs. xs ++ all_promises (step m c) cs) (step_keeps m c) ⟩
      (handed m c ++ waiting_instructions (step m c)) ++ all_promises (step m c) cs
    ≡⟨ append_assoc (handed m c) _ _ ⟩
      handed m c ++ (waiting_instructions (step m c) ++ all_promises (step m c) cs)
    ≡⟨ ap (◌++◌ (handed m c)) (delivery (step m c) cs) ⟩
      handed m c ++ (all_handed (step m c) cs ++ waiting_instructions (run (step m c) cs))
    ≡⟨ sym (append_assoc (handed m c) _ _) ⟩
      (handed m c ++ all_handed (step m c) cs) ++ waiting_instructions (run (step m c) cs) ∎

any-append_self :
    (is : List SteeringItem) (author text : String) (now : ℕ)
    → any (same_instruction author text) (is ++ waiting author text now ∷ []) ≡ true
unfolding any
any-append_self [] author text now = ground (arith, eq_iff author author, eq_iff text text)
any-append_self (i ∷ is) author text now = ground (arith, any-append_self is author text now)

-- The receipt of an offer says accepted exactly when the mailbox is open and the instruction waits
-- in it afterwards.
pub offer_receipt_honest :
    (author text : String) (now : ℕ) (m : SteeringMailbox)
    → accepted (offer author text now m).1
      ≡ (m.is_open && any (same_instruction author text) (offer author text now m).0.pending)
unfolding offer
offer_receipt_honest author text now m =
    if_induction Honest (not m.is_open) (λ closed. ground arith)
      λ open_now.
        if_induction Honest (any (same_instruction author text) m.pending) (λ there. ground arith)
          λ fresh.
            if_induction Honest (leb m.max_depth (depth m)) (λ full. ground arith)
              λ _. ground (arith, any-append_self m.pending author text now)
  where
    Honest : SteeringMailbox × SteeringReceipt → Type 0
    Honest r = accepted r.1 ≡ (m.is_open && any (same_instruction author text) r.0.pending)
