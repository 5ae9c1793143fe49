-- ===== src/Deadlines/Stopping.antt =====
-- A stop request wins over work that is done, with the reason that was given first.
use autonomous_llm_bot.Prelude.{
  ℕ, String, ◌≡◌, refl, inl, inr, Bool, true, false, Option, some, List, [], ◌∷◌, arith, ◌==◌,
  nat_eq, string_eq, Bool-cases, if_induction,
}
use autonomous_llm_bot.Ledger.State.{or_text}
use autonomous_llm_bot.Deadlines.{
  CancelToken, cancel, run_cancelled, Work, Wake, woke, done, is_spent, with_deadline,
}

-- Stop requests one after the other; what each call returns is not looked at.
unfoldable pub cancel_all : List String → CancelToken → CancelToken
cancel_all [] t = t
cancel_all (r ∷ rs) t = cancel_all rs (cancel r t).0

cancel_all-cancelled :
    (rs : List String) (t : CancelToken) → t.cancelled ≡ true → cancel_all rs t ≡ t
unfolding cancel_all cancel
cancel_all-cancelled [] t h = refl
cancel_all-cancelled (r ∷ rs) t h =
    if_induction (λ (x : CancelToken × Bool). cancel_all rs x.0 ≡ t) t.cancelled
      (λ _. cancel_all-cancelled rs t h) (λ running. ground arith)

-- The token after a first stop request and any later ones.
cancel_all-first :
    (r : String) (rs : List String) (t : CancelToken)
    → t.cancelled ≡ false
    → cancel_all (r ∷ rs) t ≡ record { cancelled = true; reason = or_text r "취소됨" }
unfolding cancel_all cancel
cancel_all-first r rs t h = rw h (cancel_all-cancelled rs _ refl)

or_text_again : (r : String) → or_text (or_text r "취소됨") "취소됨" ≡ or_text r "취소됨"
or_text_again r = elim (Bool-cases (r == "")) [
  | inl blank ↦ rw blank refl
  | inr some_text ↦ rw some_text (rw some_text refl)
]

-- For a token without a stop request, and a budget that is positive or absent: where a first request
-- and any later ones reach the token while a stage waits, the stage ends cancelled, with the reason
-- of the first one, or the default for an empty one, whatever its work has come to; where they come
-- while the waiter of work that is done is reaped, it ends so too; and where they come before the
-- stage, whatever it would wake up to.
pub first_stop_wins :
    {A : Type 0} (seconds : Option ℕ) (stage r : String) (rs : List String) (t : CancelToken)
    (work : Work A) (reaped : Option CancelToken)
    → t.cancelled ≡ false
    → is_spent seconds ≡ false
    → let stopped = some (cancel_all (r ∷ rs) t) in
      (with_deadline seconds (some t) stage (woke stopped work reaped)
        ≡ run_cancelled (or_text r "취소됨"))
      × ((a : A)
          → with_deadline seconds (some t) stage (woke (some t) (done a) stopped)
            ≡ run_cancelled (or_text r "취소됨"))
      × ((wake : Wake A)
          → with_deadline seconds stopped stage wake ≡ run_cancelled (or_text r "취소됨"))
unfolding with_deadline
first_stop_wins seconds stage r rs t work reaped h unspent =
    rw (cancel_all-first r rs t h, h, unspent, or_text_again r) (refl, (λ a. refl), (λ wake. refl))
