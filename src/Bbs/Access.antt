-- ===== src/Bbs/Access.antt =====
-- cmd/bbs/bbs: what a line of a station may do to the message store.
pub mod Line
pub mod Run
use mathlib.Core.Path.{subst}
use go_ax.Base.{
  Bool, Bool-cases, Bytes, Option, ap, false, if◌then◌else◌, inl, inr, ltb, none, not, refl, some,
  sym, true, ℕ, ◌==◌, ◌||◌, ◌∙◌, ◌≡◌,
}
use go_ax.Bbs.{
  BbsEnv, BbsSession, Desk, Message, MessageIndex, body_mode, send_line, send_text, text_line,
}
use go_ax.Bbs.Reading.{
  has_bulletin, has_private, header_text, is_readable_for_user, kill_message, kill_number, may_kill,
  note_read, read_number, show_message,
}
use go_ax.Address.{equal_bytes}
use go_ax.Router.Lifecycle.{call}
use go_ax.Base.Texts.{codes}

-- What a session may make of the store: nothing, post the message that it has composed under its own
-- callsign, delete a message that it may kill, or set its own mark of the last message that was read,
-- which it may read.
pub data Access {S : Type 0} (b : BbsEnv S) (s : BbsSession) (x : S) : S → Type 0 where
  untouched : Access b s x x
  posts :
      s.input_mode ≡ body_mode
      → Access b s x
          (b.ms.put s.base_call s.pending_to s.pending_subject s.pending_body s.pending_flags x).0
  kills :
      (id : ℕ) (m : MessageIndex)
      → b.ms.find id x ≡ some (some m)
      → may_kill s m ≡ true
      → Access b s x (b.ms.delete id x).0
  marks :
      (id : ℕ) (m : Message)
      → b.ms.read id x ≡ some m
      → is_readable_for_user s m.index ≡ true
      → Access b s x (b.ms.set_last_read s.base_call id x)

-- A session of the same station that is the operator only if the other is.
pub record Weaker (s t : BbsSession) : Type 0 where
  pub same_call : s.base_call ≡ t.base_call
  pub no_more : s.is_sysop ≡ true → t.is_sysop ≡ true

or_weaker : (a c e : Bool) → (a ≡ true → c ≡ true) → (a || e) ≡ true → (c || e) ≡ true
or_weaker true c e f h = rw (f refl) refl
or_weaker false true e f h = refl
or_weaker false false e f h = h

unnegated : (c : Bool) → not c ≡ false → c ≡ true
unnegated true h = refl
unnegated false h = cc

may_kill-Weaker :
    (s t : BbsSession) (m : MessageIndex) → Weaker s t → may_kill s m ≡ true → may_kill t m ≡ true
may_kill-Weaker s t m w h =
    let from_me = equal_bytes m.from s.base_call in
    subst (λ c. (t.is_sysop || equal_bytes m.from c || equal_bytes m.to c) ≡ true) w.same_call
      (or_weaker (s.is_sysop || from_me) (t.is_sysop || from_me) (equal_bytes m.to s.base_call)
        (or_weaker s.is_sysop t.is_sysop from_me w.no_more) h)

unfoldable open_to : Bool → Bool → Bool → Bool → Bool
open_to bulletin is_op private mine =
    if bulletin then true else if is_op then true else if private then mine else false

open_to_weaker :
    (u a c v e : Bool) → (a ≡ true → c ≡ true) → open_to u a v e ≡ true → open_to u c v e ≡ true
unfolding open_to
open_to_weaker true a c v e f h = refl
open_to_weaker false true c v e f h = rw (f refl) refl
open_to_weaker false false true v e f h = refl
open_to_weaker false false false v e f h = h

readable-Weaker :
    (s t : BbsSession) (m : MessageIndex)
    → Weaker s t
    → is_readable_for_user s m ≡ true
    → is_readable_for_user t m ≡ true
unfolding open_to
readable-Weaker s t m w h =
    subst
      (λ c.
        open_to (has_bulletin m.flags) t.is_sysop (has_private m.flags)
          (equal_bytes m.to c || equal_bytes m.from c)
        ≡ true)
      w.same_call
      (open_to_weaker (has_bulletin m.flags) s.is_sysop t.is_sysop (has_private m.flags)
        (equal_bytes m.to s.base_call || equal_bytes m.from s.base_call) w.no_more h)

module _ {S : Type 0} (b : BbsEnv S) where
  -- A desk that differs in what was sent only.
  pub record SameBut (d e : Desk S) : Type 0 where
    pub session_same : e.session ≡ d.session
    pub store_same : e.store ≡ d.store

  send_text-SameBut : (text : Bytes) (d e : Desk S) → SameBut d e → SameBut d (send_text b text e)
  send_text-SameBut text d e k = elim (Bool-cases b.has_client) [
    | inl on ↦ simp on (record { session_same = k.session_same; store_same = k.store_same })
    | inr off ↦ simp off k
  ]

  pub sent_same : (text : Bytes) (d : Desk S) → SameBut d (send_text b text d)
  sent_same text d = send_text-SameBut text d d (record { session_same = refl; store_same = refl })

  -- The store of a desk, as seen from a session and a store before.
  pub record Leaves (s : BbsSession) (x : S) (d : Desk S) : Type 0 where
    pub left : Access b s x d.store

  module _ (s : BbsSession) where
    quiet : (d e : Desk S) → SameBut d e → Leaves s d.store e
    quiet d e k = record { left = subst (Access b s d.store) (sym k.store_same) untouched }

    said_quiet : (text : Bytes) (d : Desk S) → Leaves s d.store (send_text b text d)
    said_quiet text d = quiet d _ (sent_same text d)

    pub then_said :
        (text : Bytes) (x : S) (d : Desk S) → Leaves s x d → Leaves s x (send_text b text d)
    then_said text x d l = record {
      left = subst (Access b s x) (sym (sent_same text d).store_same) l.left;
    }

    pub one_or_other :
        (c : Bool) (x : S) (d e : Desk S)
        → (c ≡ true → Leaves s x d)
        → (c ≡ false → Leaves s x e)
        → Leaves s x (if c then d else e)
    one_or_other true x d e l k = l refl
    one_or_other false x d e l k = k refl

    note_read-Leaves :
        (id : ℕ) (m : Message) (d e : Desk S)
        → Weaker d.session s
        → SameBut d e
        → b.ms.read id d.store ≡ some m
        → is_readable_for_user d.session m.index ≡ true
        → Leaves s d.store (note_read b id e)
    note_read-Leaves id m d e w k found may =
        let call : s.base_call ≡ e.session.base_call =
          sym (ap (λ t. t.base_call) k.session_same ∙ w.same_call) in
        let marked : b.ms.set_last_read s.base_call id d.store
            ≡ b.ms.set_last_read e.session.base_call id e.store =
          ap (λ c. b.ms.set_last_read c id d.store) call
          ∙ ap (b.ms.set_last_read e.session.base_call id) (sym k.store_same) in
        one_or_other (ltb (b.ms.last_read e.session.base_call e.store) id) d.store _ e
          (λ h. record {
            left =
                subst (Access b s d.store) marked
                  (marks id m found (readable-Weaker d.session s m.index w may));
          })
          (λ h. quiet d e k)

    show_message-Leaves :
        (id : ℕ) (o : Option Message) (d : Desk S)
        → Weaker d.session s
        → b.ms.read id d.store ≡ o
        → Leaves s d.store (show_message b id o d)
    show_message-Leaves id none d w found = said_quiet _ d
    show_message-Leaves id (some m) d w found =
        let mine = is_readable_for_user d.session m.index in
        one_or_other (not mine) d.store (send_line b (codes "*** Access denied") d) _
          (λ h. said_quiet _ d)
          (λ h.
            note_read-Leaves id m d _ w
              (send_text-SameBut _ d _ (
                send_text-SameBut _ d _
                  (send_text-SameBut _ d _ (sent_same (text_line (header_text m.index)) d))))
              found (unnegated mine h))

    pub read_number-Leaves :
        (o : Option ℕ) (d : Desk S) → Weaker d.session s → Leaves s d.store (read_number b o d)
    read_number-Leaves none d w = said_quiet _ d
    read_number-Leaves (some id) d w =
        one_or_other (id == 0) d.store (send_line b (codes "*** Usage: R <message number>") d) _
          (λ h. said_quiet _ d) (λ h. show_message-Leaves id (b.ms.read id d.store) d w refl)

    kill_message-Leaves :
        (id : ℕ) (o : Option (Option MessageIndex)) (d : Desk S)
        → Weaker d.session s
        → b.ms.find id d.store ≡ o
        → Leaves s d.store (kill_message b id o d)
    kill_message-Leaves id none d w found = said_quiet _ d
    kill_message-Leaves id (some none) d w found = said_quiet _ d
    kill_message-Leaves id (some (some m)) d w found =
        one_or_other (not (may_kill d.session m)) d.store (send_line b (codes "*** Kill denied") d)
          _ (λ h. said_quiet _ d)
          (λ h.
            then_said _ d.store (record d { store = (b.ms.delete id d.store).0 })
              (record {
                left =
                    kills id m found
                      (may_kill-Weaker d.session s m w (unnegated (may_kill d.session m) h));
              }))

    pub kill_number-Leaves :
        (o : Option ℕ) (d : Desk S) → Weaker d.session s → Leaves s d.store (kill_number b o d)
    kill_number-Leaves none d w = said_quiet _ d
    kill_number-Leaves (some id) d w =
        one_or_other (id == 0) d.store (send_line b (codes "*** Usage: K <message number>") d) _
          (λ h. said_quiet _ d) (λ h. kill_message-Leaves id (b.ms.find id d.store) d w refl)
