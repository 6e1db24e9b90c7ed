-- ===== src/Bbs/Granted/Answer.antt =====
-- cmd/bbs/bbs/sysop.go: the response that `SubmitResponse` accepts.
use go_ax.Bbs.{BbsSession, SysopState}
use go_ax.Base.{Bool-cases, Bytes, arith, inl, inr, leb, ltb, true, ℕ, ◌+◌, ◌≡◌, ◌≤◌}
use go_ax.Bbs.Sysop.{
  failed_once, is_awaiting_response, submit_response, verify_response, verify_success,
}
use go_ax.Bbs.Text.{trim_space}

-- The text answers the challenge that the session has issued, in time.
pub record Answers (now : ℕ) (text : Bytes) (s : BbsSession) : Type 0 where
  pub asked : is_awaiting_response s.sysop ≡ true
  pub in_time : now ≤ s.sysop.challenge_expires
  pub right : verify_response (trim_space text) s.sysop ≡ true

failed_once-no_success : (now : ℕ) (s : SysopState) → (failed_once now s).0 ≡ verify_success → ⊥
failed_once-no_success now s h = elim (Bool-cases (leb s.max_attempts (s.failed_attempts + 1))) [
  | inl last ↦ ground (arith, h, last)
  | inr more ↦ ground (arith, h, more)
]

pub submit_response-Answers :
    (now : ℕ) (text : Bytes) (s : BbsSession)
    → (submit_response now (trim_space text) s.sysop).0 ≡ verify_success
    → Answers now text s
unfolding submit_response
submit_response-Answers now text s h = elim (Bool-cases (is_awaiting_response s.sysop)) [
  | inr off ↦ absurd (cc (simp off at h))
  | inl on ↦ elim (Bool-cases (ltb s.sysop.challenge_expires now)) [
    | inl late ↦ absurd (cc (simp (on, late) at h))
    | inr early ↦ elim (Bool-cases (verify_response (trim_space text) s.sysop)) [
      | inl right ↦ record { asked = on; in_time = ground (arith, early); right = right }
      | inr wrong ↦ absurd (failed_once-no_success now s.sysop (simp (on, early, wrong) at h))
    ]
  ]
]
