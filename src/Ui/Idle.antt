-- ===== src/Ui/Idle.antt =====
-- codebase/slint-ui/src/ui_service and main.rs: that the front end does not go on waiting.
use safechat.Prelude.{
  ◌≡◌, refl, sym, subst, ◌∙◌, Bool, true, false, ◌||◌, ◌&&◌, Option, none, some, List, [], ◌∷◌,
  ◌++◌, arith, length, ltb, inl, inr, Bool-cases,
}
use safechat.Prelude.Bytes.{Bytes, bytes_eq, codes}
use safechat.Ui.{TransportKind, Command, Operation, operation, ChatUpdate, Event}
use safechat.Ui.State.{
  UiState, from_profiles, prepare, apply_update, apply, with_contact, without_contact, with_page,
  next_generation, select_transport, return_to_existing_chat,
}
use safechat.Ui.Worker.{command_queue_size, submit}
use safechat.Ui.Live.{Answers}
use safechat.Prelude.{ok, err, if◌then◌else◌}
use safechat.Prelude.Programs.Ensures.{ok-injective}
use safechat.Ui.Front.{Front, Step, Reach, launched, is_profile, after_refusal}

-- The commands that make the chat busy.
abbrev makes_busy : Command → Bool
makes_busy (Command.initialize profile password confirmation) = false
makes_busy (Command.verify_contact profile password bundle fingerprint) = false
makes_busy _ = true

abbrev any_busy : List Command → Bool
any_busy [] = false
any_busy (c ∷ q) = makes_busy c || any_busy q

abbrev is_waiting : UiState → Bool
is_waiting s = s.chat_loading || s.history_loading

-- While the front end waits, a command that it waits for is not answered, or a poll was dropped.
abbrev Good : Front → Type 0
Good f = is_waiting f.state ≡ true → (any_busy f.taken || any_busy f.queue || f.dropped) ≡ true

any_busy-append :
    (q : List Command) (c : Command) → any_busy (q ++ (c ∷ [])) ≡ (any_busy q || makes_busy c)
any_busy-append [] c = ground arith
any_busy-append (d ∷ q) c = ground (arith, any_busy-append q c)

prepare-waiting :
    (c : Command) (s : UiState)
    → is_waiting (prepare c s) ≡ true
    → (is_waiting s || makes_busy c) ≡ true
unfolding prepare
prepare-waiting (Command.initialize profile password confirmation) s h = ground arith
prepare-waiting (Command.verify_contact profile password bundle fingerprint) s h = ground arith
prepare-waiting (Command.load_history peer) s h = ground arith
prepare-waiting (Command.load_older_history peer before) s h = ground arith
prepare-waiting (Command.delete_history peer) s h = ground arith
prepare-waiting (Command.send peer transport text) s h = ground arith
prepare-waiting (Command.receive_pasted peer ciphertext) s h = ground arith
prepare-waiting (Command.poll peer) s h = ground arith

with_contact-waiting :
    (contact : Option (Bytes × Bytes)) (s : UiState)
    → is_waiting (with_contact contact s) ≡ is_waiting s
with_contact-waiting none s = refl
with_contact-waiting (some (name, bundle)) s = refl

profile-makes_busy : (c : Command) → operation c ≡ Operation.profile → makes_busy c ≡ false
unfolding operation
profile-makes_busy (Command.initialize profile password confirmation) a = refl
profile-makes_busy (Command.verify_contact profile password bundle fingerprint) a = refl
profile-makes_busy (Command.load_history peer) a = cc
profile-makes_busy (Command.load_older_history peer before) a = cc
profile-makes_busy (Command.delete_history peer) a = cc
profile-makes_busy (Command.send peer TransportKind.relay text) a = cc
profile-makes_busy (Command.send peer TransportKind.copy_paste text) a = cc
profile-makes_busy (Command.receive_pasted peer ciphertext) a = cc
profile-makes_busy (Command.poll peer) a = cc

if-idle :
    (b : Bool) (x y : UiState)
    → is_waiting x ≡ false
    → is_waiting y ≡ false
    → is_waiting (if b then x else y) ≡ false
if-idle true x y h k = h
if-idle false x y h k = k

apply_update-idle : (u : ChatUpdate) (s : UiState) → is_waiting (apply_update u s) ≡ false
unfolding apply_update
apply_update-idle u s =
    let updated = with_page u (next_generation s.scroll_generation) s in
    if-idle (bytes_eq u.status (codes "Chat history deleted.")) (without_contact updated) updated
      refl refl

true≢false : (b : Bool) → b ≡ true → b ≡ false → ⊥
true≢false b h k = cc

if-ok :
    (b : Bool) (x q' : List Command) (reason : Bytes)
    → (if b then ok x else err reason) ≡ ok q'
    → (b ≡ true) × (q' ≡ x)
if-ok true x q' reason e = (refl, sym (ok-injective x q' e))
if-ok false x q' reason e = cc

apply-waiting :
    (c : Command) (e : Event) (s : UiState)
    → Answers c e
    → is_waiting (apply e s) ≡ true
    → (is_waiting s ≡ true) × (makes_busy c ≡ false) × (is_profile e ≡ true)
unfolding apply apply_update operation
apply-waiting c (Event.profile_ready ready) s a h =
    (sym (with_contact-waiting ready.contact _) ∙ h, profile-makes_busy c a, refl)
apply-waiting c (Event.contact_added name bundle status) s a h = cc
apply-waiting c (Event.chat_updated update) s a h =
    absurd (true≢false _ h (apply_update-idle update s))
apply-waiting c (Event.error op message) s a h = cc

still_busy :
    (waiting held queued dropped new : Bool)
    → (waiting ≡ true → (held || queued || dropped) ≡ true)
    → (waiting || new) ≡ true
    → (held || (queued || new) || dropped) ≡ true
still_busy true held queued dropped new h k = let was = h refl in ground arith
still_busy false held queued dropped new h k = ground arith

moved_on :
    (held queued dropped new : Bool)
    → (held || (new || queued) || dropped) ≡ true
    → ((held || new) || queued || dropped) ≡ true
moved_on held queued dropped new h = ground arith

left_over :
    (busy rest queued dropped profile : Bool)
    → ((busy || rest) || queued || dropped) ≡ true
    → busy ≡ false
    → profile ≡ true
    → (rest || queued || (dropped && profile)) ≡ true
left_over busy rest queued dropped profile h k l = ground arith

submit-queue : (c : Command) (q q' : List Command) → submit c q ≡ ok q' → q' ≡ q ++ (c ∷ [])
unfolding submit
submit-queue c q q' e = (if-ok (ltb (length q) command_queue_size) (q ++ (c ∷ [])) q' _ e).1

after_refusal-waiting :
    (c : Command) (status : Bytes) (s : UiState)
    → is_waiting (after_refusal c status (prepare c s)) ≡ true
    → is_waiting s ≡ true
unfolding after_refusal prepare
after_refusal-waiting (Command.initialize profile password confirmation) status s h = ground arith
after_refusal-waiting (Command.verify_contact profile password bundle fingerprint) status s h =
    ground arith
after_refusal-waiting (Command.load_history peer) status s h = cc
after_refusal-waiting (Command.load_older_history peer before) status s h = cc
after_refusal-waiting (Command.delete_history peer) status s h = cc
after_refusal-waiting (Command.send peer transport text) status s h = cc
after_refusal-waiting (Command.receive_pasted peer ciphertext) status s h = cc
after_refusal-waiting (Command.poll peer) status s h = cc

or-true : (a b : Bool) → (a || b || true) ≡ true
or-true a b = ground arith

Step-Good : {f g : Front} → Step f g → Good f → Good g
unfolding select_transport return_to_existing_chat
Step-Good (Step.submitted f q c e) h waiting =
    rw (submit-queue c f.queue q e, any_busy-append f.queue c)
      (still_busy (is_waiting f.state) (any_busy f.taken) (any_busy f.queue) f.dropped
        (makes_busy c) h (prepare-waiting c f.state waiting))
Step-Good (Step.refused f c reason status other e) h waiting =
    h (after_refusal-waiting c status f.state waiting)
Step-Good (Step.poll_refused f may full) h waiting = or-true (any_busy f.taken) (any_busy f.queue)
Step-Good (Step.taken f c q e) h waiting = rw (any_busy-append f.taken c) (
    moved_on (any_busy f.taken) (any_busy q) f.dropped (makes_busy c)
      (subst (λ p. (any_busy f.taken || any_busy p || f.dropped) ≡ true) e (h waiting)))
Step-Good (Step.answered f c cs e oldest a) h waiting =
    let (before, quiet, profile) = apply-waiting c e f.state a waiting in
    left_over (makes_busy c) (any_busy cs) (any_busy f.queue) f.dropped (is_profile e)
      (subst (λ p. (any_busy p || any_busy f.queue || f.dropped) ≡ true) oldest (h before)) quiet
      profile
Step-Good (Step.chosen f t) h waiting = h waiting
Step-Good (Step.returned f) h waiting = h waiting

Reach-Good : {f g : Front} → Good f → Reach f g → Good g
Reach-Good h Reach.here = h
Reach-Good h (Reach.next r st) = Step-Good st (Reach-Good h r)

not-waiting :
    (s : UiState)
    → (is_waiting s ≡ true → ⊥)
    → (s.chat_loading ≡ false) × (s.history_loading ≡ false)
not-waiting s h = elim (Bool-cases (is_waiting s)) [ inl e ↦ absurd (h e) | inr e ↦ ground arith ]

started : (profiles : List Bytes) → Good (launched profiles)
unfolding from_profiles
started profiles waiting = cc

-- However submissions, refusals and answers interleave from the start, once every accepted command
-- is answered the front end no longer shows that it is loading, unless a poll was refused and every
-- answer since was that of a ready profile.
pub answered_idle :
    (profiles : List Bytes) (f : Front)
    → Reach (launched profiles) f
    → f.queue ≡ []
    → f.taken ≡ []
    → f.dropped ≡ false
    → (f.state.chat_loading ≡ false) × (f.state.history_loading ≡ false)
answered_idle profiles f r queued pending kept = not-waiting f.state (λ waiting.
    let busy = Reach-Good (started profiles) r waiting in
    true≢false (any_busy f.taken || any_busy f.queue || f.dropped) busy
      (rw (queued, pending, kept) refl))
