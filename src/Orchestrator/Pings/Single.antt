-- ===== src/Orchestrator/Pings/Single.antt =====
-- When a nonce of orchestrator/src/orchestrator.js is used up.
use mathlib.Core.Bool.{false≢true}
use mathlib.Core.Option.{some-injective}
use audit_guard.Prelude.{
  ℕ, ◌≤◌, ◌≡◌, refl, String, Bool, true, false, Option, none, some, List, [], ◌∷◌, ltb, ◌===◌, ◌||◌,
  is_empty, Bool-cases, inl, inr, arith, if_both, ◌∙◌, ap, sym,
}
use audit_guard.Prelude.Map
use audit_guard.Prelude.Map.{Map}
use audit_guard.Orchestrator.Pings.{
  Ping, State, Pong, Verifier, send_ping, drop_nonce, Waiting, Profile, fits_profile, await_agent,
  verify_ping, verify_fields, begin_pong, end_pong, wait_for, take_waiting, resume, answered,
  after_pong, cleanup_pings, cleanup, Event, ping, pong, tidy, handle,
}

-- The nonce is not sent again.
abbrev pub IsOther : String → Event → Type 0
IsOther nonce (ping n) = (n === nonce) ≡ false
IsOther nonce _ = Unit

-- The nonce is pending no longer.
abbrev pub IsGone : String → State → Type 0
IsGone nonce s = Map.get nonce s.pending ≡ none

cleanup-IsGone :
    (nonce : String) (now : ℕ) (m : Map Ping)
    → Map.get nonce m ≡ none
    → Map.get nonce (cleanup_pings now m) ≡ none
unfolding cleanup_pings Map.get
cleanup-IsGone nonce now [] h = h
cleanup-IsGone nonce now ((n, p) ∷ m) h = elim (Bool-cases (n === nonce)) [
  | inl same ↦ cc
  | inr other ↦ elim (Bool-cases (ltb p.expires_at now)) [
    | inl old ↦ simp old (cleanup-IsGone nonce now m (rw other at h))
    | inr young ↦ simp (young, other) (cleanup-IsGone nonce now m (rw other at h))
  ]
]

drop-IsGone : (nonce n : String) (s : State) → IsGone nonce s → IsGone nonce (drop_nonce n s)
unfolding drop_nonce
drop-IsGone nonce n s h = elim (Bool-cases (n === nonce)) [
  | inl same ↦ Map.get-delete n nonce s.pending ∙ simp same refl
  | inr other ↦ Map.get-delete n nonce s.pending ∙ simp other h
]

end_pong-IsGone :
    (nonce : String) (reply : Profile) (w : Waiting) (s : State)
    → IsGone nonce s
    → IsGone nonce (end_pong reply w s).1
unfolding end_pong
end_pong-IsGone nonce reply w s h =
    if_both (λ (r : Bool × State). IsGone nonce r.1) (fits_profile w.signer reply)
      (drop-IsGone nonce w.nonce s h) h

-- A signer that fits uses the nonce up.
used-IsGone :
    (reply : Profile) (w : Waiting) (s : State)
    → (end_pong reply w s).0 ≡ true
    → IsGone w.nonce (end_pong reply w s).1
unfolding end_pong
used-IsGone reply w s e = elim (Bool-cases (fits_profile w.signer reply)) [
  | inl fits ↦ simp fits (unfold drop_nonce in Map.get-delete_self w.nonce s.pending)
  | inr odd ↦ absurd (false≢true (rw odd at e))
]

module _ (v : Verifier) (now : ℕ) where
  verify_ping-IsGone :
      (nonce id n message signature : String) (o : Option Ping) (s : State)
      → IsGone nonce s
      → IsGone nonce (verify_ping v now id n message signature o s).1
  unfolding verify_ping
  verify_ping-IsGone nonce id n message signature none s h = h
  verify_ping-IsGone nonce id n message signature (some p) s h =
      if_both (λ (r : Option Waiting × State). IsGone nonce r.1) (ltb p.expires_at now)
        (drop-IsGone nonce n s h) h

  verify_fields-IsGone :
      (nonce id : String) (n signature message : Option String) (s : State)
      → IsGone nonce s
      → IsGone nonce (verify_fields v now id n signature message s).1
  unfolding verify_fields
  verify_fields-IsGone nonce id (some n) (some signature) (some message) s h =
      if_both (λ (r : Option Waiting × State). IsGone nonce r.1)
        (is_empty n || is_empty signature || is_empty message) h
        (verify_ping-IsGone nonce id n message signature (Map.get n s.pending) s h)
  verify_fields-IsGone nonce id none _ _ s h = h
  verify_fields-IsGone nonce id (some n) none _ s h = h
  verify_fields-IsGone nonce id (some n) (some signature) none s h = h

  after_pong-IsGone :
      (nonce id : String) (b : Bool) (s : State)
      → IsGone nonce s
      → IsGone nonce (after_pong now id (b, s))
  unfolding after_pong
  after_pong-IsGone nonce id true s h = h
  after_pong-IsGone nonce id false s h = h

  wait-IsGone :
      (nonce : String) (o : Option Waiting) (s : State)
      → IsGone nonce s
      → IsGone nonce (wait_for (o, s))
  unfolding wait_for
  wait-IsGone nonce none s h = h
  wait-IsGone nonce (some w) s h = h

  resume-IsGone :
      (nonce : String) (reply : Profile) (o : Option (Waiting × List Waiting)) (s : State)
      → IsGone nonce s
      → IsGone nonce (resume now reply o s)
  unfolding resume
  resume-IsGone nonce reply none s h = h
  resume-IsGone nonce reply (some (w, ws)) s h =
      let r = end_pong reply w (record s { waiting = ws }) in
      after_pong-IsGone nonce w.agent_id r.0 r.1
        (end_pong-IsGone nonce reply w (record s { waiting = ws }) h)

  handle-IsGone :
      (nonce : String) (e : Event) (s : State)
      → IsOther nonce e
      → IsGone nonce s
      → IsGone nonce (handle v now e s)
  unfolding handle send_ping begin_pong cleanup
  handle-IsGone nonce (ping n) s other h = Map.get-set n nonce _ s.pending ∙ simp other h
  handle-IsGone nonce (pong p) s other h =
      let r = verify_fields v now p.agent_id p.nonce p.signature p.message s in
      wait-IsGone nonce r.0 r.1
        (verify_fields-IsGone nonce p.agent_id p.nonce p.signature p.message s h)
  handle-IsGone nonce (answered n reply) s other h =
      resume-IsGone nonce reply (take_waiting n s.waiting) s h
  handle-IsGone nonce tidy s other h = cleanup-IsGone nonce now s.pending h

  await_agent-Waiting :
      (id nonce : String) (o : Option String) (w : Waiting)
      → await_agent v id nonce o ≡ some w
      → (o ≡ some w.signer) × (w.nonce ≡ nonce) × (w.agent_id ≡ id)
  unfolding await_agent
  await_agent-Waiting id nonce none w e = cc
  await_agent-Waiting id nonce (some signer) w e = elim (Bool-cases v.has_registry) [
    | inl asks ↦ let same = some-injective _ w (rw asks at e) in rw (← same) (refl, refl, refl)
    | inr blind ↦ cc (rw blind at e)
  ]

  verify_ping-Waiting :
      (id nonce message signature : String) (o : Option Ping) (s : State) (w : Waiting)
      → (verify_ping v now id nonce message signature o s).0 ≡ some w
      → (sent : Ping) × (o ≡ some sent)
        × (now ≤ sent.expires_at)
        × (v.recover message signature ≡ some w.signer)
        × (w.nonce ≡ nonce)
        × (w.agent_id ≡ id)
  unfolding verify_ping
  verify_ping-Waiting id nonce message signature none s w e = cc
  verify_ping-Waiting id nonce message signature (some sent) s w e =
      elim (Bool-cases (ltb sent.expires_at now)) [
        | inl late ↦ cc (rw late at e)
        | inr timely ↦
            let (signed, named, known) =
              await_agent-Waiting id nonce (v.recover message signature) w (rw timely at e) in
            (sent, refl, ground (arith, timely), signed, named, known)
      ]

  -- What the beginning of a PONG has shown that awaits the registry.
  pub record IsAnswer (p : Pong) (s : State) (w : Waiting) : Type 0 where
    pub text : String
    pub mark : String
    pub names : p.nonce ≡ some w.nonce
    pub says : p.message ≡ some text
    pub signs : p.signature ≡ some mark
    pub claims : w.agent_id ≡ p.agent_id
    pub sent : Ping
    pub was_pending : Map.get w.nonce s.pending ≡ some sent
    pub timely : now ≤ sent.expires_at
    pub signer : v.recover text mark ≡ some w.signer

  begin-IsAnswer :
      (id : String) (n signature message : Option String) (s : State) (w : Waiting)
      → (verify_fields v now id n signature message s).0 ≡ some w
      → IsAnswer (record { agent_id = id; nonce = n; signature = signature; message = message }) s w
  unfolding verify_fields
  begin-IsAnswer id none _ _ s w e = cc
  begin-IsAnswer id (some n) none _ s w e = cc
  begin-IsAnswer id (some n) (some signature) none s w e = cc
  begin-IsAnswer id (some n) (some signature) (some message) s w e =
      elim (Bool-cases (is_empty n || is_empty signature || is_empty message)) [
        | inl blank ↦ cc (rw blank at e)
        | inr full ↦
            let (sent, there, timely, signed, named, known) =
              verify_ping-Waiting id n message signature (Map.get n s.pending) s w (rw full at e) in
            record {
              text = message;
              mark = signature;
              names = ap some (sym named);
              says = refl;
              signs = refl;
              claims = known;
              sent = sent;
              was_pending = ap (λ k. Map.get k s.pending) named ∙ there;
              timely = timely;
              signer = signed;
            }
      ]

-- Events one after another, each with its time and its verifier.
abbrev pub Trace : Type 0
Trace = List (Verifier × ℕ × Event)

unfoldable pub handle_all : Trace → State → State
handle_all [] s = s
handle_all ((v, now, e) ∷ es) s = handle_all es (handle v now e s)

abbrev pub AreOther : String → Trace → Type 0
AreOther nonce [] = Unit
AreOther nonce ((v, now, e) ∷ es) = IsOther nonce e × AreOther nonce es

handle_all-IsGone :
    (nonce : String) (es : Trace) (s : State)
    → AreOther nonce es
    → IsGone nonce s
    → IsGone nonce (handle_all es s)
unfolding handle_all
handle_all-IsGone nonce [] s other h = h
handle_all-IsGone nonce ((v, now, e) ∷ es) s other h =
    handle_all-IsGone nonce es (handle v now e s) other.1 (handle-IsGone v now nonce e s other.0 h)

gone_fails :
    (v : Verifier) (now : ℕ) (id nonce : String) (signature message : Option String) (s : State)
    → IsGone nonce s
    → (verify_fields v now id (some nonce) signature message s).0 ≡ none
unfolding verify_fields verify_ping
gone_fails v now id nonce none message s h = refl
gone_fails v now id nonce (some signature) none s h = refl
gone_fails v now id nonce (some signature) (some message) s h =
    elim (Bool-cases (is_empty nonce || is_empty signature || is_empty message)) [
      | inl blank ↦ simp blank refl
      | inr full ↦ simp (full, h) refl
    ]

-- A PONG that comes to ask the registry names a nonce which was pending and in its time, with a message
-- that the awaiting signer has signed. If the registry's answer, in whatever state it comes, then
-- verifies it, and whatever events follow in which this nonce is not sent again, every PONG that names
-- the nonce and begins after that fails at once. Nothing is said of PONGs that have begun before.
pub begin_pong-end_pong :
    (v later_v : Verifier) (now later : ℕ) (p q : Pong) (reply : Profile) (es : Trace)
    (s then_s : State) (w : Waiting)
    → (begin_pong v now p s).0 ≡ some w
    → (end_pong reply w then_s).0 ≡ true
    → q.nonce ≡ p.nonce
    → AreOther w.nonce es
    → IsAnswer v now p s w
      × ((begin_pong later_v later q (handle_all es (end_pong reply w then_s).1)).0 ≡ none)
unfolding begin_pong
begin_pong-end_pong v later_v now later p q reply es s then_s w e verified same others =
    let a = begin-IsAnswer v now p.agent_id p.nonce p.signature p.message s w e in
    let end = handle_all es (end_pong reply w then_s).1 in
    let gone =
      handle_all-IsGone w.nonce es (end_pong reply w then_s).1 others
        (used-IsGone reply w then_s verified) in
    let named : q.nonce ≡ some w.nonce = same ∙ a.names in
    (a, rw named (gone_fails later_v later q.agent_id w.nonce q.signature q.message end gone))
