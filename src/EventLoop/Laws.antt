-- ===== src/EventLoop/Laws.antt =====
-- libsponge/util/eventloop.cc: what a wait keeps, and when it returns without a call of a callback.
use com_net_sponge.Prelude.{
  ℕ, ◌≡◌, ◌≢◌, ◌↔◌, sym, ◌∙◌, refl, ap, subst, inl, inr, Bool, true, false, Bool-cases, not, ◌&&◌,
  ◌||◌, ◌==◌, if◌then◌else◌, List, [], ◌∷◌, Option, Option-cases, none, some,
}
use com_net_sponge.EventLoop.{
  Rule, Pollfd, Revents, PollAnswer, timed_out, interrupted, poll_failed, reported, Result, success,
  exit, nothing_reported, asked, ready, first_report, later_reports, Direction, direction_in,
  direction_out, defunct, pollfd_of, set_up, something_to_poll, rules_of, call, service_count, turn,
  serve, polled, wait_next_event,
}

unready : (events : Option Direction) → ready events nothing_reported ≡ false
unfolding ready
unready none = refl
unready (some direction_in) = refl
unready (some direction_out) = refl

-- A predicate holds of the result, if there is no exception.
abbrev pub After {ℓ} : {A : Type 0} → (A → Type ℓ) → Option A → Type ℓ
After Q none = Unit
After Q (some a) = Q a

module _ {S : Type 0} where
  -- The state's predicate outlives the callbacks of a rule.
  pub record Keeps (P : S → Type 0) (r : Rule S) : Type 0 where
    pub callback_keeps : (s : S) → P s → After P (r.callback s)
    pub cancel_keeps : (s : S) → P s → After P (r.cancel s)

  abbrev pub AllKeep : (S → Type 0) → List (Rule S) → Type 0
  AllKeep P [] = Unit
  AllKeep P (r ∷ rules) = Keeps P r × AllKeep P rules

  module _ (P : S → Type 0) where
    set_up-Keeps :
        (rules : List (Rule S)) (s : S)
        → AllKeep P rules
        → P s
        → After (λ x. P x.0 × AllKeep P (rules_of x.1)) (set_up rules s)
    unfolding rules_of set_up
    set_up-Keeps [] s k p = (p, tt)
    set_up-Keeps (r ∷ rules) s k p = elim (Bool-cases (defunct r s)) [
      | inl gone ↦ elim (Option-cases (r.cancel s)) [
        | inl e ↦ rw (set_up, gone, e) tt
        | inr (s', e) ↦
            let after : P s' = subst (After P) e (k.0.cancel_keeps s p) in
            rw (set_up, gone, e) (set_up-Keeps rules s' k.1 after)
      ]
      | inr stays ↦
          let later = set_up-Keeps rules s k.1 p in
          elim (Option-cases (set_up rules s)) [
            | inl e ↦ rw (set_up, stays, e) tt
            | inr ((s', kept), e) ↦
                let (p', k') = subst (After (λ x. P x.0 × AllKeep P (rules_of x.1))) e later in
                rw (set_up, stays, e) (p', (k.0, k'))
          ]
    ]

    call-Keeps : (r : Rule S) (s : S) → Keeps P r → P s → After P (call r s)
    unfolding call
    call-Keeps r s k p =
        let called = k.callback_keeps s p in
        elim (Option-cases (r.callback s)) [
          | inl e ↦ rw (e, call) tt
          | inr (s', e) ↦
              let after : P s' = subst (After P) e called in
              elim (Bool-cases ((service_count r s == service_count r s') && r.interest s')) [
                | inl spins ↦ rw (e, call, spins) tt
                | inr moves ↦ rw (e, call, moves) after
              ]
        ]

    turn-Keeps :
        (r : Rule S) (p : Pollfd) (now : Revents) (s : S)
        → Keeps P r
        → P s
        → After (λ x. P x.0) (turn r p now s)
    unfolding turn
    turn-Keeps r p now s k h = elim (Bool-cases (now.err || now.nval)) [
      | inl bad ↦ rw bad tt
      | inr fine ↦ elim (Bool-cases (now.hup && asked p.events && not (ready p.events now))) [
        | inl hung ↦
            let cancelled = k.cancel_keeps s h in
            elim (Option-cases (r.cancel s)) [
              | inl e ↦ rw (fine, hung, e) tt
              | inr (s', e) ↦ rw (fine, hung, e) (subst (After P) e cancelled)
            ]
        | inr up ↦ elim (Bool-cases (ready p.events now)) [
          | inl is_ready ↦
              let called = call-Keeps r s k h in
              elim (Option-cases (call r s)) [
                | inl e ↦ rw (fine, up, is_ready, e) tt
                | inr (s', e) ↦ rw (fine, up, is_ready, e) (subst (After P) e called)
              ]
          | inr idle ↦ rw (fine, up, idle) h
        ]
      ]
    ]

    kept_rule :
        (stays : Bool) (r : Rule S) (rules : List (Rule S))
        → Keeps P r
        → AllKeep P rules
        → AllKeep P (if stays then r ∷ rules else rules)
    kept_rule true r rules k ks = (k, ks)
    kept_rule false r rules k ks = ks

    serve-Keeps :
        (kept : List (Rule S × Pollfd)) (reports : List Revents) (s : S)
        → AllKeep P (rules_of kept)
        → P s
        → After (λ x. P x.0 × AllKeep P x.1) (serve kept reports s)
    unfolding serve rules_of
    serve-Keeps [] reports s k p = (p, tt)
    serve-Keeps ((r, fd) ∷ kept) reports s k p =
        let now : Revents = first_report reports in
        let turned = turn-Keeps r fd now s k.0 p in
        elim (Option-cases (turn r fd now s)) [
          | inl e ↦ rw (serve, e) tt
          | inr ((s', stays), e) ↦
              let after : P s' = subst (After (λ x. P x.0)) e turned in
              let later = serve-Keeps kept (later_reports reports) s' k.1 after in
              elim (Option-cases (serve kept (later_reports reports) s')) [
                | inl e' ↦ rw (serve, e, e') tt
                | inr ((s'', rules), e') ↦
                    let (p', k') = subst (After (λ x. P x.0 × AllKeep P x.1)) e' later in
                    rw (serve, e, e') (p', kept_rule stays r rules k.0 k')
              ]
        ]

    abbrev pub Waited : Option (Result × S × List (Rule S)) → Type 0
    Waited o = After (λ x. P x.1 × AllKeep P x.2) o

    served :
        (kept : List (Rule S × Pollfd)) (reports : List Revents) (s : S)
        → AllKeep P (rules_of kept)
        → P s
        → Waited (elim (serve kept reports s) [
          | none ↦ none
          | some (s', rules) ↦ some (success, s', rules)
        ])
    served kept reports s k p =
        let later = serve-Keeps kept reports s k p in
        elim (Option-cases (serve kept reports s)) [
          | inl e ↦ rw e tt
          | inr ((s', rules), e) ↦ rw e (subst (After (λ x. P x.0 × AllKeep P x.1)) e later)
        ]

    polled-Keeps :
        (kept : List (Rule S × Pollfd)) (answer : PollAnswer) (s : S)
        → AllKeep P (rules_of kept)
        → P s
        → Waited (polled kept answer s)
    unfolding polled
    polled-Keeps kept timed_out s k p = (p, k)
    polled-Keeps kept interrupted s k p = (p, k)
    polled-Keeps kept (poll_failed errno) s k p = served kept [] s k p
    polled-Keeps kept (reported reports) s k p = served kept reports s k p

    -- What the callbacks of every rule keep is kept by a wait, whatever is reported to it.
    pub wait_next_event-Keeps :
        (rules : List (Rule S)) (answer : PollAnswer) (s : S)
        → AllKeep P rules
        → P s
        → Waited (wait_next_event rules answer s)
    unfolding wait_next_event
    wait_next_event-Keeps rules answer s k p =
        let begun = set_up-Keeps rules s k p in
        elim (Option-cases (set_up rules s)) [
          | inl e ↦ rw (wait_next_event, e) tt
          | inr ((s', kept), e) ↦
              let (p', k') = subst (After (λ x. P x.0 × AllKeep P (rules_of x.1))) e begun in
              elim (Bool-cases (something_to_poll kept)) [
                | inl some_asked ↦
                    rw (wait_next_event, e, some_asked) (polled-Keeps kept answer s' k' p')
                | inr none_asked ↦ rw (wait_next_event, e, none_asked) (p', k')
              ]
        ]

  -- No rule has a descriptor at its end or closed.
  abbrev pub AllLive : List (Rule S) → S → Type 0
  AllLive [] s = Unit
  AllLive (r ∷ rules) s = (defunct r s ≡ false) × AllLive rules s

  abbrev pub any_interested : List (Rule S) → S → Bool
  any_interested [] s = false
  any_interested (r ∷ rules) s = r.interest s || any_interested rules s

  abbrev pub paired : List (Rule S) → S → List (Rule S × Pollfd)
  paired [] s = []
  paired (r ∷ rules) s = (r, pollfd_of r s) ∷ paired rules s

  pub set_up_live :
      (rules : List (Rule S)) (s : S) → AllLive rules s → set_up rules s ≡ some (s, paired rules s)
  unfolding set_up
  set_up_live [] s live = refl
  set_up_live (r ∷ rules) s live = rw (set_up, live.0, set_up_live rules s live.1) refl

  rules_of-paired : (rules : List (Rule S)) (s : S) → rules_of (paired rules s) ≡ rules
  unfolding rules_of
  rules_of-paired [] s = refl
  rules_of-paired (r ∷ rules) s = ap (λ rs. r ∷ rs) (rules_of-paired rules s)

  asked-pollfd : (r : Rule S) (s : S) → asked (pollfd_of r s).events ≡ r.interest s
  unfolding asked pollfd_of
  asked-pollfd r s = elim (Bool-cases (r.interest s)) [ inl e ↦ rw e refl | inr e ↦ rw e refl ]

  something-paired :
      (rules : List (Rule S)) (s : S) → something_to_poll (paired rules s) ≡ any_interested rules s
  unfolding something_to_poll
  something-paired [] s = refl
  something-paired (r ∷ rules) s = rw (asked-pollfd r s, something-paired rules s) refl

  serve_unreported :
      (kept : List (Rule S × Pollfd)) (s : S) → serve kept [] s ≡ some (s, rules_of kept)
  unfolding serve rules_of turn first_report later_reports
  serve_unreported [] s = refl
  serve_unreported ((r, p) ∷ kept) s = rw (serve, unready p.events, serve_unreported kept s) refl

  pub wait_live :
      (rules : List (Rule S)) (answer : PollAnswer) (s : S)
      → AllLive rules s
      → wait_next_event rules answer s ≡ (
          if not (any_interested rules s)
          then some (exit, s, rules)
          else polled (paired rules s) answer s)
  unfolding wait_next_event
  wait_live rules answer s live =
      rw
        (
          wait_next_event,
          set_up_live rules s live,
          something-paired rules s,
          rules_of-paired rules s,
        )
        refl

  abbrev with_success : Option (S × List (Rule S)) → Option (Result × S × List (Rule S))
  with_success none = none
  with_success (some (s', rules)) = some (success, s', rules)

  joined :
      (o : Option (S × List (Rule S)))
      → with_success o ≡ elim o as (λ x. Option (Result × S × List (Rule S))) [
        | none ↦ none
        | some (s', rules) ↦ some (success, s', rules)
      ]
  joined none = refl
  joined (some a) = refl

  served-ne-exit :
      (o : Option (S × List (Rule S))) (result : Result) (s' : S) (rules' : List (Rule S))
      → with_success o ≡ some (result, s', rules')
      → result ≢ exit
  served-ne-exit none result s' rules' e x = cc
  served-ne-exit (some a) result s' rules' e x = cc

  polled-ne-exit :
      (kept : List (Rule S × Pollfd)) (answer : PollAnswer) (s s' : S) (result : Result)
      (rules' : List (Rule S))
      → answer ≢ interrupted
      → polled kept answer s ≡ some (result, s', rules')
      → result ≢ exit
  unfolding polled
  polled-ne-exit kept timed_out s s' result rules' running e = λ x. cc
  polled-ne-exit kept interrupted s s' result rules' running e = λ x. running refl
  polled-ne-exit kept (poll_failed errno) s s' result rules' running e =
      served-ne-exit (serve kept [] s) result s' rules' (joined (serve kept [] s) ∙ e)
  polled-ne-exit kept (reported reports) s s' result rules' running e =
      served-ne-exit (serve kept reports s) result s' rules' (joined (serve kept reports s) ∙ e)

  -- With all descriptors open and before their end, and unless a signal interrupts the poll, a wait that
  -- returns tells its caller to exit exactly when no rule was interested.
  pub exit_iff :
      (rules : List (Rule S)) (answer : PollAnswer) (s s' : S) (result : Result)
      (rules' : List (Rule S))
      → AllLive rules s
      → answer ≢ interrupted
      → wait_next_event rules answer s ≡ some (result, s', rules')
      → (result ≡ exit) ↔ (any_interested rules s ≡ false)
  exit_iff rules answer s s' result rules' live running e =
      let waited = sym (wait_live rules answer s live) ∙ e in
      elim (Bool-cases (any_interested rules s)) [
        | inl some_asked ↦
            let p = rw some_asked at waited in
            let other = polled-ne-exit (paired rules s) answer s s' result rules' running p in
            (λ x. absurd (other x), λ x. cc)
        | inr none_asked ↦ let p = rw none_asked at waited in (λ x. none_asked, λ x. cc)
      ]

  -- A poll that fails, other than by a signal, is taken for a success although no exception is thrown:
  -- no callback is called, and the state and the rules are as before.
  pub poll_failed_ignored :
      (rules : List (Rule S)) (errno : ℕ) (s : S)
      → AllLive rules s
      → any_interested rules s ≡ true
      → wait_next_event rules (poll_failed errno) s ≡ some (success, s, rules)
  unfolding polled
  poll_failed_ignored rules errno s live some_asked =
      rw
        (
          wait_live rules (poll_failed errno) s live,
          some_asked,
          polled,
          serve_unreported (paired rules s) s,
          rules_of-paired rules s,
        )
        refl
